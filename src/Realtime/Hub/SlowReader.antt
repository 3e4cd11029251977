-- ===== src/Realtime/Hub/SlowReader.antt =====
-- What a slow subscriber is left with.
use mathlib.Core.List.{append_assoc, append-nil}
use green_lab.Prelude.{
  ◌≤◌, ◌≡◌, sym, ◌∙◌, ap, subst, false, List, [], ◌∷◌, ◌++◌, length, take, take_short, take-append,
  length-append, ltb, ltb→lt, Bool-cases, inl, inr, arith,
}
use green_lab.Realtime.Hub.{Inbox, write}

module _ {M : Type 0} where
  abbrev pub write_all : List M → Inbox M → Inbox M
  write_all [] inbox = inbox
  write_all (msg ∷ msgs) inbox = write_all msgs (write msg inbox)

  take_full : (q ms : List M) → length q ≡ 256 → take 256 (q ++ ms) ≡ q
  take_full q ms h = subst (λ n. take n (q ++ ms) ≡ q) h (take-append q ms)

  -- Of the messages written to an open subscription whose reader has stopped, the buffer keeps the
  -- first that fit into its 256 places, after those it had, in order.
  pub write_all-take :
      (msgs q : List M)
      → length q ≤ 256
      → write_all msgs (record { queue = q; is_closed = false })
        ≡ record { queue = take 256 (q ++ msgs); is_closed = false }
  unfolding write
  write_all-take [] q h =
      ap (λ (l : List M). record { queue = l; is_closed = false })
        (sym (ap (take 256) (append-nil q) ∙ take_short 256 q h))
  write_all-take (msg ∷ msgs) q h = elim (Bool-cases (ltb (length q) 256)) [
    | inl room ↦ rw room (
        write_all-take msgs (q ++ msg ∷ [])
          (omega (arith, length-append q (msg ∷ []), ltb→lt (length q) 256 room))
        ∙ ap (λ (l : List M). record { queue = take 256 l; is_closed = false })
            (append_assoc q (msg ∷ []) msgs))
    | inr full ↦
        let is_full : length q ≡ 256 = ground arith in
        rw full (
          write_all-take msgs q h
          ∙ ap (λ (l : List M). record { queue = l; is_closed = false })
              (take_full q msgs is_full ∙ sym (take_full q (msg ∷ msgs) is_full)))
  ]
