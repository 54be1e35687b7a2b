-- ===== src/Tests/Shm.antt =====
-- A run of the two programs on one word.
use c_examples.Base.{ℕ, ◌≡◌, refl, inl, inr, List, [], ◌∷◌, ◌++◌, some, none, arith}
use c_examples.Shm.Programs.{
  Shared, ClientPc, copying, await_ack, client_done, ServerPc, await_word, post_ack, await_client,
  server_done, copy, terminate, post_word, take_ack, write_end, post_last, take_end, take_word,
  is_word, is_end, print, ack, end, Step, client, server, empty_shared, Reach, start, later,
}
use c_examples.Shm.Handshake.{AllWords, printed_prefix}
use c_examples.Shm.Ending.{Reads, Ended, exclusive, progress, one_hangs}

abbrev one_word : List (List ℕ)
one_word = (104 ∷ 105 ∷ []) ∷ []

one_word-AllWords : AllWords one_word
one_word-AllWords = ((λ e. cc e), _)

abbrev copying_state : Shared × ClientPc × ServerPc
copying_state = (record empty_shared { shm_ptr = none }, copying (104 ∷ 105 ∷ []) [], await_word)

copying-Reach : Reach one_word copying_state
copying-Reach = later start (client (copy (omega arith)))

exclusive_example : ¬ Reads await_word
exclusive_example = exclusive {s = copying_state} one_word-AllWords copying-Reach _

progress_example : (t : Shared × ClientPc × ServerPc) × Step copying_state t
progress_example =
    progress {s = copying_state} one_word-AllWords copying-Reach not_ended (λ e. cc e)
  where
    not_ended : ¬ Ended (copying (104 ∷ 105 ∷ []) []) await_word
    not_ended (inl e) = cc e
    not_ended (inr e) = cc e

abbrev printed_state : Shared × ClientPc × ServerPc
printed_state = (
  record { client_sem = 0; server_sem = 0; shm_ptr = some (104 ∷ 105 ∷ []); printed = one_word },
  await_ack [],
  post_ack,
)

printed-Reach : Reach one_word printed_state
printed-Reach =
    later
      (later
        (later (later (later copying-Reach (client terminate)) (client post_word))
          (server (take_word (omega arith))))
        (server (is_word refl (λ e. cc e))))
      (server (print refl))

printed_prefix_example : (rest : List (List ℕ)) × (one_word ≡ one_word ++ rest)
printed_prefix_example = printed_prefix {s = printed_state} one_word-AllWords printed-Reach

abbrev hung_state : Shared × ClientPc × ServerPc
hung_state = (
  record { client_sem = 0; server_sem = 0; shm_ptr = some []; printed = one_word },
  client_done,
  await_client,
)

hung-Reach : Reach one_word hung_state
hung-Reach =
    later
      (later
        (later
          (later
            (later
              (later (later (later printed-Reach (server ack)) (client (take_ack (omega arith))))
                (client write_end))
              (client post_last))
            (server (take_word (omega arith))))
          (server (is_end refl)))
        (server end))
      (client (take_end (omega arith)))

one_hangs_example :
    ((t : Shared × ClientPc × ServerPc) → ¬ Step hung_state t)
    × ¬ ((client_done ≡ client_done) × (await_client ≡ server_done))
    × (one_word ≡ one_word)
one_hangs_example = one_hangs {s = hung_state} one_word-AllWords hung-Reach (inl refl)
