-- ===== src/Protocol/Connection/Requests.antt =====
-- lib/protocol/protocol.go: the requests that wait for an answer, `Request`, `handleResponse`, and what
-- `internalClose` does with them. Each part that runs under the mutex of the map `awaiting`, and each
-- look at the channel `closed`, is one function on the state. A channel is named by the id of its
-- request. No context is cancelled.
-- `none` is a panic, or a goroutine that waits for ever with the mutex held.
pub mod Answers
pub mod Tracks
use syncthing_mem.Base.{
  ℕ, suc, ◌+◌, Bool, true, false, Option, none, some, List, [], ◌∷◌, ◌==◌, if◌then◌else◌, ◌>>=◌,
}

module _ (R : Type 0) where
  -- A channel with room for one result.
  pub record Channel : Type 0 where
    pub result : Option R
    pub closed : Bool

  -- What rawConnection has for its requests; `awaiting` are the keys of the map, and those that gave
  -- up are the requests that returned ErrClosed because they could not be sent.
  pub record Requests : Type 0 where
    pub next_id : ℕ
    pub awaiting : List ℕ
    pub channels : ℕ → Channel
    pub closed : Bool
    pub gave_up : ℕ → Bool

abbrev pub member : ℕ → List ℕ → Bool
member n [] = false
member n (m ∷ ms) = if n == m then true else member n ms

abbrev pub remove_id : ℕ → List ℕ → List ℕ
remove_id n [] = []
remove_id n (m ∷ ms) = let rest = remove_id n ms in if n == m then rest else m ∷ rest

module _ {R : Type 0} where
  abbrev pub set_channel : ℕ → Channel R → Requests R → Requests R
  set_channel id ch s = record s { channels = λ n. if n == id then ch else s.channels n }

  -- `rc <- r`: it panics on a closed channel, and waits where there is a result.
  abbrev pub send_to : Option R → Bool → ℕ → R → Requests R → Option (Requests R)
  send_to none false id r s = some (set_channel id (record { result = some r; closed = false }) s)
  send_to (some _) false id r s = none
  send_to _ true id r s = none

  unfoldable pub send_result : ℕ → R → Requests R → Option (Requests R)
  send_result id r s = send_to (s.channels id).result (s.channels id).closed id r s

  -- `close(rc)`
  abbrev pub close_once : Bool → ℕ → Requests R → Option (Requests R)
  close_once true id s = none
  close_once false id s =
      some (set_channel id (record { result = (s.channels id).result; closed = true }) s)

  unfoldable pub close_channel : ℕ → Requests R → Option (Requests R)
  close_channel id s = close_once (s.channels id).closed id s

  -- Request: a new id and its channel; "id taken" is a panic.
  unfoldable pub register : Requests R → Option (Requests R)
  register s =
      if member s.next_id s.awaiting
      then none
      else some (
          set_channel s.next_id (record { result = none; closed = false })
            (record s { next_id = s.next_id + 1; awaiting = s.next_id ∷ s.awaiting }))

  -- The beginning of Request: nothing is registered where the connection is closed, and Request
  -- returns ErrClosed.
  unfoldable pub start_request : Requests R → Option (Requests R)
  start_request s = let registered = register s in if s.closed then some s else registered

  -- `send` fails, which it only does once the connection is closed: Request returns ErrClosed, and its
  -- channel stays where it is.
  unfoldable pub fail_send : ℕ → Requests R → Requests R
  fail_send id s =
      if s.closed then record s { gave_up = λ n. if n == id then true else s.gave_up n } else s

  unfoldable pub handle_response : ℕ → R → Requests R → Option (Requests R)
  handle_response id r s =
      let answered =
        send_result id r (record s { awaiting = remove_id id s.awaiting }) >>= close_channel id in
      if member id s.awaiting then answered else some s

  -- The loop of internalClose over the ids that were there when it began.
  unfoldable pub close_awaiting : List ℕ → Requests R → Option (Requests R)
  close_awaiting [] s = some s
  close_awaiting (i ∷ is) s =
      close_channel i s >>= λ t. close_awaiting is (record t { awaiting = remove_id i t.awaiting })

  -- What Request gets from its channel, if it does not wait: a result, or ErrClosed.
  abbrev pub received_by : Option R → Bool → Option (Option R)
  received_by (some r) closed = some (some r)
  received_by none true = some none
  received_by none false = none

  abbrev pub received : Channel R → Option (Option R)
  received ch = received_by ch.result ch.closed

  unfoldable pub receive_from : ℕ → Requests R → Option (Option R)
  receive_from id s = received (s.channels id)

  -- What Request returns, if it does: an answer, or ErrClosed.
  unfoldable pub request_end : ℕ → Requests R → Option (Option R)
  unfolding receive_from
  request_end id s = if s.gave_up id then some none else receive_from id s

module _ (R : Type 0) where
  -- What changes the state, in any order. A request may be overtaken by the closing of the connection
  -- between its look at `closed` and its registration; `internalClose` first closes `closed`, and
  -- then empties the map.
  pub data Happens : Type 0 where
    requested overtaken : Happens
    unsent : ℕ → Happens
    responded : ℕ → R → Happens
    closing emptying : Happens

module _ {R : Type 0} where
  unfoldable pub happen : Happens R → Requests R → Option (Requests R)
  happen requested s = start_request s
  happen overtaken s = register s
  happen (unsent id) s = some (fail_send id s)
  happen (responded id r) s = handle_response id r s
  happen closing s = some (record s { closed = true })
  happen emptying s = close_awaiting s.awaiting s

  unfoldable pub happen_all : List (Happens R) → Requests R → Option (Requests R)
  happen_all [] s = some s
  happen_all (h ∷ hs) s = happen h s >>= happen_all hs

  -- NewConnection
  abbrev pub new_requests : Requests R
  new_requests = record {
    next_id = 0;
    awaiting = [];
    channels = λ n. record { result = none; closed = false };
    closed = false;
    gave_up = λ n. false;
  }
