-- ===== src/Health/Server.antt =====
-- health/service.go: the gRPC health service. The lock makes each method one step; a channel is its
-- identity and what its one place holds.
pub mod Channels
use framego.Prelude.{
  ℕ, zero, suc, ◌+◌, Bool, true, false, List, [], ◌∷◌, ◌++◌, Option, none, some, length, get_elem?,
  erase_idx, ◌==◌, if◌then◌else◌,
}
use framego.Health.Status.{State, unknown, healthy, unhealthy, Status}

pub data ServingStatus : Type 0 where
  serving not_serving service_unknown : ServingStatus

pub fill_proto_status : State → ServingStatus
fill_proto_status healthy = serving
fill_proto_status unhealthy = not_serving
fill_proto_status unknown = service_unknown

-- `Check` answers with the reporter's last status.
pub check : Status → ServingStatus
unfolding fill_proto_status
check last_status = fill_proto_status last_status.state

pub record Chan : Type 0 where
  pub id : ℕ
  pub place : Option Status

-- `closed` lists the channels that were closed, `next_id` is the identity of the next to be made.
pub record Server : Type 0 where
  pub status_chans : List Chan
  pub closed : List ℕ
  pub next_id : ℕ

pub new_server : Server
new_server = record { status_chans = []; closed = []; next_id = 0 }

-- A new channel holds the current status.
pub new_status_chan : Server → Status → Server × ℕ
new_status_chan s last_status = (
  record s {
    status_chans = s.status_chans ++ record { id = s.next_id; place = some last_status } ∷ [];
    next_id = s.next_id + 1;
  },
  s.next_id,
)

-- What the loop of `removeStatusChan` leaves in the list, and whether it left by a panic, for an
-- index out of range.
pub data Loop : Type 0 where
  ended panicked : List Chan → Loop

-- `for i := range s.statusChans`: the number of rounds is fixed before the loop, and each round
-- reads the list that is there then.
pub remove_loop : ℕ → ℕ → ℕ → List Chan → Loop
remove_loop ch zero i chans = ended chans
remove_loop ch (suc rounds) i chans = elim (get_elem? chans i) [
  | none ↦ panicked chans
  | some c ↦ remove_loop ch rounds (suc i) (if c.id == ch then erase_idx chans i else chans)
]

after_loop : ℕ → Server → Loop → Server × Bool
after_loop ch s (ended chans) = (record s { status_chans = chans; closed = ch ∷ s.closed }, true)
after_loop ch s (panicked chans) = (record s { status_chans = chans }, false)

-- The server afterwards, and whether the method returned (it panicked if not).
pub remove_status_chan : Server → ℕ → Server × Bool
unfolding after_loop remove_loop
remove_status_chan s ch = after_loop ch s (remove_loop ch (length s.status_chans) 0 s.status_chans)

-- One status of `broadcastStatus`: sent to each channel in turn, up to the first with no room, at
-- which the method waits with the lock held.
pub data Sending : Type 0 where
  sent : List Chan → Sending
  waits : List Chan → Sending

pub behind : Chan → Sending → Sending
behind c (sent chans) = sent (c ∷ chans)
behind c (waits chans) = waits (c ∷ chans)

pub broadcast : Status → List Chan → Sending
unfolding behind
broadcast status [] = sent []
broadcast status (c ∷ later) =
    let rest = broadcast status later in
    elim c.place [
      | none ↦ behind (record c { place = some status }) rest
      | some waiting ↦ waits (c ∷ later)
    ]

-- `Watch`: the answers sent for the statuses of its channel; it stops at the first that
-- `stream.Send` refuses (`false`).
pub watch : List (Status × Bool) → List ServingStatus
unfolding fill_proto_status
watch [] = []
watch ((status, accepted) ∷ later) =
    fill_proto_status status.state ∷ (if accepted then watch later else [])
