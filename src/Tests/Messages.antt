-- ===== src/Tests/Messages.antt =====
-- lib/protocol/protocol.go at a few messages.
use syncthing_mem.Base.{
  ℕ, map, pos, ◌≡◌, refl, inl, inr, ◌⊎◌, Bool, true, false, not, ◌&&◌, none, some, List, [], ◌∷◌,
  if◌then◌else◌, if_ind, Text, text_eq, arith,
}
use syncthing_mem.Protocol.Connection.Requests.{
  Requests, Happens, requested, overtaken, unsent, responded, closing, emptying,
}
use syncthing_mem.Protocol.Connection.Requests.Tracks.{answers_after, at_start, outcome}
use syncthing_mem.Protocol.Connection.{
  dot, dot_dot, is_rooted, check_filename, check_blocks, check_file_info_consistency,
  check_index_consistency, Received, cluster_config, request, ping, download_progress, handle,
  Failure, inconsistent, invalid_filename, unclean_filename, next_ready, check_body, check_message,
  handle_message, dispatcher_loop,
}
use syncthing_mem.Protocol.Connection.Names.{
  elements, Normal, AllNormal, UpThenNormal, IsClean, AllSafe, Begins,
}
use syncthing_mem.Protocol.Connection.Dispatch.{dispatcher_loop-AllSafe}

abbrev normal : Text → Bool
normal e = not (text_eq e []) && (not (text_eq e dot) && not (text_eq e dot_dot))

abbrev all_normal : List Text → Bool
all_normal [] = true
all_normal (e ∷ es) = normal e && all_normal es

-- A name that needs cleaning becomes ".".
abbrev keep_normal : Text → Text
keep_normal name = if all_normal (elements name) then name else dot

normal-Normal : (e : Text) → normal e ≡ true → Normal e
normal-Normal e h = ground arith

all_normal-AllNormal : (es : List Text) → all_normal es ≡ true → AllNormal es
all_normal-AllNormal [] h = tt
all_normal-AllNormal (e ∷ es) h =
    let (first, rest) = both (normal e) (all_normal es) h in
    (normal-Normal e first, all_normal-AllNormal es rest)
  where
    both : (a b : Bool) → (a && b) ≡ true → (a ≡ true) × (b ≡ true)
    both true b h = (refl, h)
    both false b h = cc

keep_normal-IsClean : IsClean keep_normal
keep_normal-IsClean name =
    if_ind
      (λ (n : Text). (text_eq n dot ≡ true) ⊎ ((is_rooted n ≡ true) ⊎ UpThenNormal (elements n)))
      (all_normal (elements name)) name dot
      (λ clean. inr (inr (inr (all_normal-AllNormal (elements name) clean)))) (λ _. inl refl)

abbrev inbox : List Received
inbox =
    cluster_config
    ∷ request (97 ∷ 47 ∷ 98 ∷ []) (pos 5)
    ∷ ping
    ∷ request (46 ∷ 46 ∷ 47 ∷ 98 ∷ []) (pos 5)
    ∷ []

messages_run :
    (dispatcher_loop keep_normal (λ _. none) false inbox ≡ (
      cluster_config ∷ request (97 ∷ 47 ∷ 98 ∷ []) (pos 5) ∷ ping ∷ [],
      some (inconsistent unclean_filename),
    ))
    × ((dispatcher_loop keep_normal (λ _. none) false (ping ∷ [])).1 ≡ some Failure.invalid_state)
    × (check_filename (λ n. n) (46 ∷ 46 ∷ 47 ∷ 98 ∷ []) ≡ some invalid_filename)
    × (check_message keep_normal true (download_progress ((46 ∷ 46 ∷ 47 ∷ 98 ∷ []) ∷ [])) ≡ handle)
unfolding check_filename check_blocks check_file_info_consistency check_index_consistency next_ready
    check_body check_message handle_message dispatcher_loop
messages_run = (refl, refl, refl, refl)

dispatcher_loop-AllSafe_example :
    AllSafe (dispatcher_loop keep_normal (λ _. none) false inbox).0
    × Begins false (dispatcher_loop keep_normal (λ _. none) false inbox).0
dispatcher_loop-AllSafe_example =
    dispatcher_loop-AllSafe keep_normal keep_normal-IsClean (λ _. none) false inbox

-- The second request gets its answer once; a third begins before the connection is closed, and is
-- registered after it: it cannot be sent. The first is refused when the map is emptied, a late response
-- to it is dropped, and a fourth request is not registered.
abbrev exchange : List (Happens ℕ)
exchange =
    requested
    ∷ requested
    ∷ responded 1 7
    ∷ responded 1 8
    ∷ responded 5 9
    ∷ closing
    ∷ emptying
    ∷ overtaken
    ∷ unsent 2
    ∷ responded 0 3
    ∷ requested
    ∷ []

exchange_outcomes :
    map (outcome (answers_after exchange at_start)) (0 ∷ 1 ∷ 2 ∷ 3 ∷ [])
    ≡ some none ∷ some (some 7) ∷ some none ∷ none ∷ []
exchange_outcomes = refl
