-- ===== src/Net/Message.antt =====
-- include/net/net_msg.hpp: a message is a header and a body of bytes that is used as a stack.
-- A value of a POD type is the list of its bytes, and `sizeof` is the length of that list.
pub mod Laws
use security_transmission_pl.Base.{
  ℕ, ◌+◌, ◌-◌, ◌^◌, Option, none, some, List, [], ◌++◌, u32, u64, length, take, drop, ltb,
  if◌then◌else◌,
}

pub record MessageHeader (T : Type 0) : Type 0 where
  pub id : T
  pub size : ℕ

pub record Message (T : Type 0) : Type 0 where
  pub header : MessageHeader T
  pub body : List ℕ

-- `remote` is the connection that the message came from, by its handle; `none` is the null pointer.
pub record OwnedMessage (T : Type 0) : Type 0 where
  pub remote : Option ℕ
  pub msg : Message T

module _ {T : Type 0} where
  -- `Message<T> m; m.header.id = id;`
  unfoldable pub with_id : T → Message T
  with_id id = record { header = record { id = id; size = 0 }; body = [] }

  unfoldable pub size : Message T → ℕ
  size m = length m.body

  -- `msg.header.size = msg.Size();`, where a `size_t` is stored in a `uint32_t`
  abbrev resized : Message T → List ℕ → Message T
  resized m body = record m { header = record (m.header) { size = u32 (length body) }; body = body }

  -- `msg << data`
  unfoldable pub push : Message T → List ℕ → Message T
  push m value = resized m (m.body ++ value)

  -- `msg >> data` for a type of `n` bytes. `size_later` wraps when the body is shorter than `n`,
  -- and the copy then starts outside the body: `none` is that undefined behaviour.
  unfoldable pub pop : Message T → ℕ → Option (List ℕ × Message T)
  pop m n =
      let size_later = u64 (length m.body + 2 ^ 64 - n) in
      if ltb (length m.body) (size_later + n)
      then none
      else some (drop size_later m.body, resized m (take size_later m.body))
