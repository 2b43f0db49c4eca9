-- ===== src/Receiver/Overrun.antt =====
-- When `getNextMessage` reads past the end of its buffer: never if nobody interrupts, and where an
-- interrupt ends the loop inside a message and is taken back before the test behind the loop.
use cpp_owl_common.Prelude.{
  ℕ, ◌<◌, ◌≤◌, ◌≡◌, refl, sym, ap, subst, ◌∙◌, Bool, List, [], ◌∷◌, ◌++◌, true, false, length, ltb,
  le→leb, lt→ltb, Bool-cases, inl, inr, arith,
}
use cpp_owl_common.Netbuffer.Endian.{Host}
use cpp_owl_common.Receiver.{
  Event, chunk, again, broken, closed, Outcome, returned, thrown, blocked, overrun, Receiver,
  read_flag, frame_length, piece_length, needs_more, receive_loop, cut_message, after_loop,
  get_next_message,
}
use cpp_owl_common.Receiver.Rounds.{quiet, chunk_round, again_round, full_round}
use cpp_owl_common.Receiver.Framing.{cut-whole}
use cpp_owl_common.Receiver.Edges.{loop_interrupted}
use cpp_owl_common.Receiver.Conserved.{IsDefined}

-- The loop has ended with a whole message in the buffer, or the call has no result.
abbrev IsEnough : Host → Outcome (Unit {0}) × Receiver → Type 0
IsEnough h (returned _, r) =
    (frame_length h r.previous_unfinished ≤ length r.previous_unfinished) × (r.flags ≡ [])
IsEnough h (thrown e, r) = Unit
IsEnough h (blocked, r) = Unit
IsEnough h (overrun, r) = ⊥

module _ (h : Host) where
  known-length :
      (piece : ℕ) (buff : List ℕ)
      → 4 ≤ length buff
      → piece_length h piece buff ≡ frame_length h buff
  unfolding piece_length
  known-length piece buff long = rw (le→leb 4 (length buff) long) refl

  stops-IsEnough :
      (piece : ℕ) (events old : List Event) (buff raw : List ℕ)
      → (4 ≤ length buff → piece ≡ frame_length h buff)
      → needs_more piece buff ≡ false
      → IsEnough h (receive_loop h piece events (quiet buff raw old))
  unfolding needs_more
  stops-IsEnough piece events old buff raw known done =
      let long : 4 ≤ length buff = ground arith in
      let whole : piece ≤ length buff = ground arith in
      subst (IsEnough h) (sym (full_round h piece events old buff raw done))
        (omega (arith, known long, whole), refl)

  loop-IsEnough :
      (piece : ℕ) (events old : List Event) (buff raw : List ℕ)
      → (4 ≤ length buff → piece ≡ frame_length h buff)
      → IsEnough h (receive_loop h piece events (quiet buff raw old))
  unfolding receive_loop read_flag
  loop-IsEnough piece [] old buff raw known = elim (Bool-cases (needs_more piece buff)) [
    | inl more ↦ rw (receive_loop, more) tt
    | inr done ↦ stops-IsEnough piece [] old buff raw known done
  ]
  loop-IsEnough piece (chunk b bs ∷ events) old buff raw known =
      elim (Bool-cases (needs_more piece buff)) [
        | inl more ↦ subst (IsEnough h) (sym (chunk_round h piece b bs events old buff raw more)) (
            loop-IsEnough (piece_length h piece (buff ++ (b ∷ bs))) events old (buff ++ (b ∷ bs)) _
              (known-length piece (buff ++ (b ∷ bs))))
        | inr done ↦ stops-IsEnough piece (chunk b bs ∷ events) old buff raw known done
      ]
  loop-IsEnough piece (again ∷ events) old buff raw known =
      elim (Bool-cases (needs_more piece buff)) [
        | inl more ↦
            subst (IsEnough h) (sym (again_round h piece events old buff raw more))
              (loop-IsEnough piece events old buff raw known)
        | inr done ↦ stops-IsEnough piece (again ∷ events) old buff raw known done
      ]
  loop-IsEnough piece (broken n ∷ events) old buff raw known =
      elim (Bool-cases (needs_more piece buff)) [
        | inl more ↦ rw (receive_loop, more) tt
        | inr done ↦ stops-IsEnough piece (broken n ∷ events) old buff raw known done
      ]
  loop-IsEnough piece (closed ∷ events) old buff raw known =
      elim (Bool-cases (needs_more piece buff)) [
        | inl more ↦ rw (receive_loop, more) tt
        | inr done ↦ stops-IsEnough piece (closed ∷ events) old buff raw known done
      ]

  after_loop-IsDefined :
      (outcome : Outcome (Unit {0})) (r : Receiver)
      → IsEnough h (outcome, r)
      → IsDefined (after_loop h (outcome, r)).0
  unfolding after_loop read_flag
  after_loop-IsDefined (thrown e) r enough = tt
  after_loop-IsDefined blocked r enough = tt
  after_loop-IsDefined overrun r enough = absurd enough
  after_loop-IsDefined (returned _) r (whole, no_flags) =
      let same : r ≡ quiet r.previous_unfinished r.raw_messages r.events =
        λ i. record r { flags = no_flags i } in
      subst (λ x. IsDefined (after_loop h (returned tt, x)).0) (sym same)
        (subst (λ (p : Outcome (List ℕ) × Receiver). IsDefined p.0)
          (sym (cut-whole h (quiet r.previous_unfinished r.raw_messages r.events) _ refl whole)) tt)

  -- If nobody interrupts, no call of `getNextMessage` reads past the end of the buffer.
  get_next_message-IsDefined : (r : Receiver) → r.flags ≡ [] → IsDefined (get_next_message h r).0
  unfolding get_next_message
  get_next_message-IsDefined r no_flags =
      let buff = r.previous_unfinished in
      let same : r ≡ quiet buff r.raw_messages r.events = λ i. record r { flags = no_flags i } in
      let loop =
        receive_loop h (piece_length h 0 buff) r.events (quiet buff r.raw_messages r.events) in
      subst (λ x. IsDefined (get_next_message h x).0) (sym same)
        (after_loop-IsDefined loop.0 loop.1 (
          loop-IsEnough (piece_length h 0 buff) r.events r.events buff r.raw_messages
            (known-length 0 buff)))

  -- If an interrupt is there at the first test of the loop and gone at the test behind it, and the
  -- message in the buffer is incomplete, the call reads past the end of the buffer.
  get_next_message_overrun :
      (r : Receiver) (flags : List Bool)
      → r.flags ≡ true ∷ false ∷ flags
      → length r.previous_unfinished < frame_length h r.previous_unfinished
      → get_next_message h r ≡ (overrun, record r { flags = flags })
  unfolding get_next_message after_loop read_flag cut_message
  get_next_message_overrun r flags e short =
      let same : r ≡ record r { flags = true ∷ false ∷ flags } = λ i. record r { flags = e i } in
      let past : ltb (length r.previous_unfinished) (frame_length h r.previous_unfinished) ≡ true =
        lt→ltb _ _ short in
      ap (get_next_message h) same
      ∙ ap (after_loop h) (
          loop_interrupted h _ r.events r.events r.previous_unfinished r.raw_messages
            (false ∷ flags))
      ∙ rw past refl
