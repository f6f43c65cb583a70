-- ===== src/Pool/Examples.antt =====
-- Tests and instances for the connection pool.
use framego.Prelude.{◌+◌, ◌≡◌, refl, true, List, [], ◌∷◌, some, none, arith}
use framego.Pool.IdleList.{Heap}
use framego.Pool.IdleList.Links.{header, Leaves}
use framego.Pool.IdleList.Refines.{
  Call, pushes_front, pops_front, pops_back, calls, after_all, AreAllowed, calls-Represents,
}
use framego.Pool.Methods.{PoolConn, Config, take_token, lazy_init, admit}
use framego.Pool.System.{Event, enters, admitted, dialed, puts, exec_all, initial}
use framego.Pool.System.Invariant.{Inv, busy, exec_all-initial-Inv, take_token_waits}

abbrev blank : Heap
blank q = record { c = q; t = 0; created = 0; next = none; prev = none }

abbrev history : List Call
history = pushes_front 1 ∷ pushes_front 2 ∷ pushes_front 3 ∷ pops_back ∷ pops_front ∷ []

history-AreAllowed : AreAllowed history []
history-AreAllowed = ground arith

left : after_all history [] ≡ 2 ∷ []
left = refl

calls-Represents_example : Leaves blank (calls history (some (blank, header []))) (2 ∷ [])
calls-Represents_example =
    calls-Represents history blank (header []) [] history-AreAllowed
      (record { header_eq = refl; chain = tt; distinct = tt })

-- One connection at a time, and callers wait.
abbrev single : Config
single = record {
  max_idle = 1;
  max_active = 1;
  idle_timeout = 0;
  wait = true;
  max_conn_lifetime = 0;
}

abbrev conn : PoolConn
conn = record { c = 7; t = 0; created = 0 }

abbrev taken : List Event
taken = enters ∷ admitted ∷ dialed ∷ []

exec_all-initial-Inv_example :
    Inv (exec_all (enters ∷ admitted ∷ dialed ∷ puts conn 5 ∷ []) (initial single))
exec_all-initial-Inv_example =
    exec_all-initial-Inv single (enters ∷ admitted ∷ dialed ∷ puts conn 5 ∷ [])

nobody_else : take_token (exec_all taken (initial single)).pool ≡ none
unfolding take_token lazy_init exec_all admit initial
nobody_else = refl

take_token_waits_example :
    (exec_all taken (initial single)).seeking + busy (exec_all taken (initial single))
    ≡ (exec_all taken (initial single)).pool.max_active
take_token_waits_example = take_token_waits single taken nobody_else
