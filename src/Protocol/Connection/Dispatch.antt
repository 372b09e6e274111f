-- ===== src/Protocol/Connection/Dispatch.antt =====
-- lib/protocol/protocol.go: what `dispatcherLoop` lets through.
use syncthing_mem.Base.{
  ◌≡◌, refl, Bool, true, false, Option, none, some, List, [], ◌∷◌, if◌then◌else◌, if_ind, Text,
}
use syncthing_mem.Protocol.Connection.{
  Received, cluster_config, index, index_update, request, response, download_progress, ping, close,
  Failure, Verdict, handle, refuse, next_ready, check_body, check_message, handle_message,
  dispatcher_loop, handle_error,
}
use syncthing_mem.Protocol.Connection.Names.{IsClean, IsSafe, AllSafe, Begins, body-IsSafe}

module _ (clean : Text → Text) (is_clean : IsClean clean) where
  -- What passes the checks is safe, and is the cluster configuration if nothing was before.
  abbrev Passes : Bool → Received → Verdict → Type 0
  Passes ready m handle = IsSafe m × (next_ready ready m ≡ true)
  Passes ready m (refuse f) = Unit

  body-Passes :
      (ready : Bool) (m : Received) (v : Verdict)
      → check_body clean m ≡ v
      → next_ready ready m ≡ true
      → Passes ready m v
  body-Passes ready m handle h r = (body-IsSafe clean is_clean m h, r)
  body-Passes ready m (refuse f) h r = tt

  when_ready :
      (ready : Bool) (m : Received)
      → Passes ready m
          (if next_ready ready m then check_body clean m else refuse Failure.invalid_state)
  when_ready ready m =
      if_ind (Passes ready m) (next_ready ready m) _ _
        (λ r. body-Passes ready m (check_body clean m) refl r) (λ _. tt)

  message-Passes : (ready : Bool) (m : Received) → Passes ready m (check_message clean ready m)
  unfolding check_message
  message-Passes ready (close reason) = tt
  message-Passes ready cluster_config = when_ready ready cluster_config
  message-Passes ready (index fs) = when_ready ready (index fs)
  message-Passes ready (index_update fs) = when_ready ready (index_update fs)
  message-Passes ready (request name size) = when_ready ready (request name size)
  message-Passes ready (response id) = when_ready ready (response id)
  message-Passes ready (download_progress names) = when_ready ready (download_progress names)
  message-Passes ready ping = when_ready ready ping

  first_config :
      (ready : Bool) (m : Received) (ms : List Received)
      → next_ready ready m ≡ true
      → Begins ready (m ∷ ms)
  unfolding next_ready
  first_config true m ms r = tt
  first_config false cluster_config ms r = refl
  first_config false (index fs) ms r = cc
  first_config false (index_update fs) ms r = cc
  first_config false (request name size) ms r = cc
  first_config false (response id) ms r = cc
  first_config false (download_progress names) ms r = cc
  first_config false ping ms r = cc
  first_config false (close reason) ms r = cc

  nothing-Begins : (ready : Bool) → Begins ready []
  nothing-Begins true = tt
  nothing-Begins false = tt

  module _ (model : Received → Option Text) where
    abbrev Good : Bool → List Received × Option Failure → Type 0
    Good ready (handled, end) = AllSafe handled × Begins ready handled

    -- Whatever a peer sends, what reaches the model from a new connection begins with a cluster
    -- configuration; every name of a file or a request in it is made of normal elements only (none is
    -- empty, "." or ".."), the blocks of files fit their kind, and the size of a request is from 0 to
    -- the largest. Nothing is claimed of the names in a download progress.
    pub dispatcher_loop-AllSafe :
        (ready : Bool) (inbox : List Received)
        → AllSafe (dispatcher_loop clean model ready inbox).0
          × Begins ready (dispatcher_loop clean model ready inbox).0
    unfolding dispatcher_loop
    dispatcher_loop-AllSafe ready [] = (tt, nothing-Begins ready)
    dispatcher_loop-AllSafe ready (m ∷ inbox) =
        by_verdict (check_message clean ready m) (message-Passes ready m)
          (dispatcher_loop-AllSafe (next_ready ready m) inbox).0
      where
        by_verdict :
            (v : Verdict)
            → Passes ready m v
            → AllSafe (dispatcher_loop clean model (next_ready ready m) inbox).0
            → Good ready (elim v [
              | refuse f ↦ ([], some f)
              | handle ↦ elim (handle_message clean model m) [
                | some e ↦ (m ∷ [], some (handle_error e))
                | none ↦
                    let (handled, end) = dispatcher_loop clean model (next_ready ready m) inbox in
                    (m ∷ handled, end)
              ]
            ])
        by_verdict (refuse f) _ later = (tt, nothing-Begins ready)
        by_verdict handle (safe, r) later =
            elim (handle_message clean model m)
              as (λ o. Good ready (elim o [
                | some e ↦ (m ∷ [], some (handle_error e))
                | none ↦
                    let (handled, end) = dispatcher_loop clean model (next_ready ready m) inbox in
                    (m ∷ handled, end)
              ])) [
                | some e ↦ ((safe, tt), first_config ready m [] r)
                | none ↦ ((safe, later), first_config ready m _ r)
              ]
