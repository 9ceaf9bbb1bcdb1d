-- ===== src/Net/Message/Laws.antt =====
-- The stack of bytes in a message: what goes in by `<<` comes out by `>>`.
use security_transmission_pl.Base.{
  ℕ, ◌+◌, ◌-◌, ◌^◌, ◌<◌, ◌≡◌, ◌↔◌, refl, ap, ◌∙◌, false, none, some, List, ◌++◌, u32, u64, length,
  arith, length-append, take_append, drop_append, take-append-drop, ltb,
}
use security_transmission_pl.Net.Message.{Message, push, pop, size, with_id}

-- The header tells the length of the body, as far as 32 bits can.
abbrev pub IsSized : {T : Type 0} → Message T → Type 0
IsSized m = m.header.size ≡ u32 (size m)

-- A body fits the address space.
abbrev pub Fits : {T : Type 0} → Message T → Type 0
Fits m = size m < 2 ^ 64

module _ {T : Type 0} where
  pub with_id-IsSized : (id : T) → IsSized (with_id id)
  unfolding with_id size
  with_id-IsSized id = refl

  pub push-IsSized : (m : Message T) (value : List ℕ) → IsSized (push m value)
  unfolding push size
  push-IsSized m value = refl

  -- `>>` on a body that holds the value takes the last bytes off, and the header follows.
  pub pop-append :
      (m : Message T) (rest value : List ℕ)
      → m.body ≡ rest ++ value
      → Fits m
      → pop m (length value)
        ≡ some (
          value,
          record { header = record { id = m.header.id; size = u32 (length rest) }; body = rest },
        )
  unfolding pop size
  pop-append m rest value e fits =
      let long : length m.body ≡ length rest + length value =
        ap length e ∙ length-append rest value in
      let later : u64 (length m.body + 2 ^ 64 - length value) ≡ length rest = omega arith in
      let inside : ltb (length m.body) (length rest + length value) ≡ false = ground arith in
      rw later (rw inside (rw e (rw (take_append rest value, drop_append rest value))))

  -- What was pushed last is popped first: on a message whose header tells its size, if the body
  -- with the value fits the address space, the value comes back and the message is as it was.
  pub pop-push :
      (m : Message T) (value : List ℕ)
      → IsSized m
      → Fits (push m value)
      → pop (push m value) (length value) ≡ some (value, m)
  unfolding push size
  pop-push m value sized fits = rw (pop-append (push m value) m.body value refl fits) (rw sized)

  -- `>>` is undefined exactly when the body is shorter than the type.
  pub pop-eq-none_iff :
      (m : Message T) (n : ℕ) → Fits m → n < 2 ^ 64 → (pop m n ≡ none) ↔ (length m.body < n)
  unfolding pop size
  pop-eq-none_iff m n fits small = ground arith

  -- A pop splits the value off the end of the body, corrects the size and keeps the id.
  pub pop-IsSized :
      (m m' : Message T) (n : ℕ) (value : List ℕ)
      → pop m n ≡ some (value, m')
      → IsSized m' × (m'.body ++ value ≡ m.body) × (m'.header.id ≡ m.header.id)
  unfolding pop size
  pop-IsSized m m' n value e =
      ground (arith, take-append-drop (u64 (length m.body + 2 ^ 64 - n)) m.body)
