-- ===== src/Proto/Reader.antt =====
-- proto/packets.go, `packetReader`: each method takes the unread bytes and returns the value and
-- what is left unread, or `none` where the method answers `ok = false`.
pub mod RoundTrip
pub mod Shape
use lazygate.Prelude.{
  ℕ, ◌+◌, ◌*◌, ◌^◌, Bool, not, ◌||◌, [], ◌∷◌, if◌then◌else◌, ltb, leb, ◌==◌, length, take, drop,
  get_or, Bytes, Option, none, some, ◌>>=◌,
}
use lazygate.Proto.VarInt.{var_int}

-- `binary.BigEndian.Uint16` and its kin, on the first bytes of a slice
abbrev pub big_endian_value : ℕ → Bytes → ℕ
big_endian_value acc [] = acc
big_endian_value acc (b ∷ bs) = big_endian_value (acc * 256 + b) bs

-- the frame of the fixed-width methods: `if r.remaining() < n { return 0, false }`
unfoldable pub read_fixed : ℕ → Bytes → Option (ℕ × Bytes)
read_fixed n r = if ltb (length r) n then none else some (big_endian_value 0 (take n r), drop n r)

unfoldable pub read_bool : Bytes → Option (Bool × Bytes)
read_bool r = if ltb (length r) 1 then none else some (not (get_or r 0 0 == 0), drop 1 r)

abbrev pub read_u8 : Bytes → Option (ℕ × Bytes)
read_u8 r = read_fixed 1 r

abbrev pub read_u16 : Bytes → Option (ℕ × Bytes)
read_u16 r = read_fixed 2 r

abbrev pub read_i64 : Bytes → Option (ℕ × Bytes)
read_i64 r = read_fixed 8 r

abbrev pub read_u64 : Bytes → Option (ℕ × Bytes)
read_u64 r = read_fixed 8 r

-- the test and the cut of `str`, once the length `n` is read
unfoldable pub read_counted : ℕ → ℕ → Bytes → Option (Bytes × Bytes)
read_counted max_len n r =
    if leb (2 ^ 31) n || ltb (length r) n || ltb max_len n then none else some (take n r, drop n r)

unfoldable pub read_str : ℕ → Bytes → Option (Bytes × Bytes)
unfolding read_counted
read_str max_len unread = do (n, r) ← var_int unread; read_counted max_len n r
