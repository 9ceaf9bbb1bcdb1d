-- ===== src/Net/Scramble.antt =====
-- The handshake puzzle, `Connection::Scramble` of include/net/net_connection.hpp.
pub mod Laws
use Prim.Native.Nat.{bit_and, bit_or, bit_xor}
use security_transmission_pl.Base.{ℕ, ◌*◌, ◌/◌, ◌^◌, u64}

-- On `uint64_t`; the left shift alone can pass 64 bits.
unfoldable pub scramble : ℕ → ℕ
scramble input =
    let out = bit_xor input 0xDEADBEEFC0DECAFE in
    let swapped =
      bit_or (bit_and out 0xF0F0F0F0F0F0F0 / 2 ^ 4) (u64 (bit_and out 0x0F0F0F0F0F0F0F * 2 ^ 4)) in
    bit_xor swapped 0xC0DEFACE12345678
