-- ===== src/Proto/VarInt/Examples.antt =====
-- Tests of the var-int code and instances of its theorems.
use lazygate.Prelude.{◌-◌, ◌^◌, [], ◌∷◌, ◌++◌, ◌≡◌, refl, arith, none, some, length}
use lazygate.Proto.VarInt.{read_var_int, encode_var_int, var_int}
use lazygate.Proto.VarInt.Agree.{read_var_int-encode_var_int, var_int-read_var_int, advanced}

-- -1 takes five bytes.
encode_minus_one : encode_var_int (2 ^ 32 - 1) ≡ 0xff ∷ 0xff ∷ 0xff ∷ 0xff ∷ 0x0f ∷ []
unfolding encode_var_int
encode_minus_one = refl

-- A fifth byte with bit 7 set ends the attempt.
too_long : read_var_int (0x80 ∷ 0x80 ∷ 0x80 ∷ 0x80 ∷ 0x80 ∷ 0 ∷ []) ≡ none
unfolding read_var_int
too_long = refl

read_300 : read_var_int (0xac ∷ 2 ∷ 7 ∷ []) ≡ some (2, 300)
unfolding read_var_int
read_300 = refl

read_var_int-encode_var_int_example :
    read_var_int (encode_var_int 25565 ++ 7 ∷ []) ≡ some (length (encode_var_int 25565), 25565)
read_var_int-encode_var_int_example = read_var_int-encode_var_int 25565 (7 ∷ []) (omega arith)

var_int-read_var_int_example :
    var_int (0xac ∷ 2 ∷ 7 ∷ []) ≡ advanced (0xac ∷ 2 ∷ 7 ∷ []) (read_var_int (0xac ∷ 2 ∷ 7 ∷ []))
var_int-read_var_int_example = var_int-read_var_int (0xac ∷ 2 ∷ 7 ∷ [])
