-- ===== src/Velocity/RoundTrip.antt =====
-- velocity_forwarding.go: the payload, and a reader of its format.
use lazygate.Prelude.{
  ℕ, ◌^◌, ◌%◌, ◌≤◌, ◌<◌, zero, suc, Bool, true, false, List, [], ◌∷◌, ◌++◌, Bytes, All, Option,
  none, some, ◌>>=◌, length, take, drop, ◌≡◌, refl, sym, ap, ◌∙◌, arith, append_assoc, append-nil,
  take-append, drop-append,
}
use mathlib.Core.Path.{subst}
use lazygate.Proto.VarInt.{encode_var_int, var_int}
use lazygate.Proto.VarInt.RoundTrip.{var_int-encode_var_int}
use lazygate.Proto.Writer.{write_bool, write_string, string_bytes}
use lazygate.Proto.Reader.{read_bool, read_str}
use lazygate.Proto.Reader.RoundTrip.{read_bool-write_bool, read_str-string_bytes}
use lazygate.Proto.Client.{ProfileProperty, GameProfile}
use lazygate.Velocity.{write_signature, write_properties, forwarding_payload}

abbrev pub max_string : ℕ
max_string = 32767

-- The reader of the format: a string, a string, a flag, and a string if the flag is set.
abbrev pub read_signature : Bool → Bytes → Option (Option Bytes × Bytes)
read_signature false r = some (none, r)
read_signature true r = do (s, r₂) ← read_str max_string r; some (some s, r₂)

unfoldable pub read_property : Bytes → Option (ProfileProperty × Bytes)
read_property r = do
  (name, r₂) ← read_str max_string r
  (value, r₃) ← read_str max_string r₂
  (signed, r₄) ← read_bool r₃
  (signature, r₅) ← read_signature signed r₄
  some (record { name = name; value = value; signature = signature }, r₅)

unfoldable pub read_properties : ℕ → Bytes → Option (List ProfileProperty × Bytes)
unfolding read_property
read_properties zero r = some ([], r)
read_properties (suc n) r = do
  (p, r₂) ← read_property r
  (ps, r₃) ← read_properties n r₂
  some (p ∷ ps, r₃)

-- A version, an address, 16 bytes of UUID, a name, a count and the properties.
unfoldable pub read_forwarding : Bytes → Option ((ℕ × Bytes × GameProfile) × Bytes)
unfolding read_properties
read_forwarding r = do
  (version, r₂) ← var_int r
  (address, r₃) ← read_str max_string r₂
  (name, r₄) ← read_str max_string (drop 16 r₃)
  (count, r₅) ← var_int r₄
  (properties, r₆) ← read_properties count r₅
  some ((version, address, record { uuid = take 16 r₃; name = name; properties = properties }), r₆)

abbrev pub IsString : Bytes → Type 0
IsString s = length s ≤ max_string

abbrev pub IsSignature : Option Bytes → Type 0
IsSignature none = Unit {0}
IsSignature (some s) = IsString s

abbrev pub IsProperty : ProfileProperty → Type 0
IsProperty p = IsString p.name × IsString p.value × IsSignature p.signature

abbrev pub IsProfile : GameProfile → Type 0
IsProfile profile =
    (length profile.uuid ≡ 16)
    × IsString profile.name
    × (length profile.properties < 2 ^ 31)
    × All IsProperty profile.properties

abbrev signature_bytes : Option Bytes → Bytes
signature_bytes none = write_bool [] false
signature_bytes (some s) = write_bool [] true ++ string_bytes s

abbrev property_bytes : ProfileProperty → Bytes → Bytes
property_bytes p rest =
    string_bytes p.name ++ (string_bytes p.value ++ (signature_bytes p.signature ++ rest))

abbrev properties_bytes : List ProfileProperty → Bytes
properties_bytes [] = []
properties_bytes (p ∷ ps) = property_bytes p (properties_bytes ps)

write_signature-bytes :
    (w : Bytes) (o : Option Bytes) → write_signature w o ≡ w ++ signature_bytes o
unfolding write_signature
write_signature-bytes w none = refl
write_signature-bytes w (some s) = simp append_assoc

write_properties-bytes :
    (w : Bytes) (ps : List ProfileProperty) → write_properties w ps ≡ w ++ properties_bytes ps
unfolding write_properties
write_properties-bytes w [] = sym (append-nil w)
write_properties-bytes w (p ∷ ps) =
    write_properties-bytes
      (write_signature (write_string (write_string w p.name) p.value) p.signature) ps
    ∙ ap (λ x. x ++ properties_bytes ps)
        (write_signature-bytes (write_string (write_string w p.name) p.value) p.signature)
    ∙ simp append_assoc

read_signature-bytes :
    (o : Option Bytes) (rest : Bytes)
    → IsSignature o
    → (read_bool (signature_bytes o ++ rest) >>= λ (signed, r). read_signature signed r)
      ≡ some (o, rest)
read_signature-bytes none rest h = rw (read_bool-write_bool false rest) refl
read_signature-bytes (some s) rest h =
    ap (λ m. m >>= λ (signed, r). read_signature signed r)
      (read_bool-write_bool true (string_bytes s ++ rest))
    ∙ ap (λ m. m >>= λ (s, r). some (some s, r))
        (read_str-string_bytes max_string s rest h (omega (arith, h)))

-- What follows the signature, on the result of reading it.
signature_last :
    {B : Type 0} {rest : Bytes} (bytes : Bytes) (o : Option Bytes)
    (next : Option Bytes → Bytes → Option B)
    → (read_bool bytes >>= λ (signed, r). read_signature signed r) ≡ some (o, rest)
    → (read_bool bytes >>= λ (signed, r). read_signature signed r >>= λ (o, r). next o r)
      ≡ next o rest
signature_last {rest = rest} bytes o next h = go (read_bool bytes) h
  where
    go :
        (m : Option (Bool × Bytes))
        → (m >>= λ (signed, r). read_signature signed r) ≡ some (o, rest)
        → (m >>= λ (signed, r). read_signature signed r >>= λ (o, r). next o r) ≡ next o rest
    go none h = ground arith
    go (some (signed, r)) h = rw h refl

read_property-bytes :
    (p : ProfileProperty) (rest : Bytes)
    → IsProperty p
    → read_property (property_bytes p rest) ≡ some (p, rest)
unfolding read_property
read_property-bytes p rest (h, k, j) =
    let name =
      read_str-string_bytes max_string p.name
        (string_bytes p.value ++ (signature_bytes p.signature ++ rest)) h (omega (arith, h)) in
    let value =
      read_str-string_bytes max_string p.value (signature_bytes p.signature ++ rest) k
        (omega (arith, k)) in
    rw (name, value)
      (signature_last (signature_bytes p.signature ++ rest) p.signature
        (λ o r. some (record { name = p.name; value = p.value; signature = o }, r))
        (read_signature-bytes p.signature rest j))

property_bytes-append :
    (p : ProfileProperty) (xs ys : Bytes) → property_bytes p xs ++ ys ≡ property_bytes p (xs ++ ys)
property_bytes-append p xs ys = simp append_assoc

read_properties-bytes :
    (ps : List ProfileProperty) (rest : Bytes)
    → All IsProperty ps
    → read_properties (length ps) (properties_bytes ps ++ rest) ≡ some (ps, rest)
unfolding read_properties
read_properties-bytes [] rest h = refl
read_properties-bytes (p ∷ ps) rest (h, k) =
    ap
      (λ r. read_property r >>= λ (q, r₂).
        read_properties (length ps) r₂ >>= λ (qs, r₃). some (q ∷ qs, r₃))
      (property_bytes-append p (properties_bytes ps) rest)
    ∙ ap (λ m. m >>= λ (q, r₂). read_properties (length ps) r₂ >>= λ (qs, r₃). some (q ∷ qs, r₃))
        (read_property-bytes p (properties_bytes ps ++ rest) h)
    ∙ ap (λ m. m >>= λ (qs, r₃). some (p ∷ qs, r₃)) (read_properties-bytes ps rest k)

layout :
    (version : ℕ) (address : Bytes) (profile : GameProfile)
    → length profile.properties < 2 ^ 31
    → forwarding_payload version address profile
      ≡ encode_var_int version
        ++ (string_bytes address
            ++ (profile.uuid
                ++ (string_bytes profile.name
                    ++ (encode_var_int (length profile.properties)
                        ++ properties_bytes profile.properties))))
unfolding forwarding_payload
layout version address profile h =
    let n : length profile.properties % 2 ^ 32 ≡ length profile.properties = ground arith in
    write_properties-bytes _ profile.properties ∙ rw n (simp append_assoc)

uuid_first :
    (uuid rest : Bytes)
    → length uuid ≡ 16
    → (take 16 (uuid ++ rest) ≡ uuid) × (drop 16 (uuid ++ rest) ≡ rest)
uuid_first uuid rest h = (take-append uuid rest 16 (sym h), drop-append uuid rest 16 (sym h))

-- The payload that is signed for a backend, with a version below 2 ^ 32 and strings within the protocol's limit,
-- is read back whole: the version, the client's address, and the profile with all of its properties.
pub read_forwarding-forwarding_payload :
    (version : ℕ) (address : Bytes) (profile : GameProfile)
    → version < 2 ^ 32
    → IsString address
    → IsProfile profile
    → read_forwarding (forwarding_payload version address profile)
      ≡ some ((version, address, profile), [])
unfolding read_forwarding
read_forwarding-forwarding_payload version address profile v a (u, n, c, ps) =
    let count = encode_var_int (length profile.properties) ++ properties_bytes profile.properties in
    let named = string_bytes profile.name ++ count in
    let (uuid, behind) = uuid_first profile.uuid named u in
    let properties =
      subst (λ r. read_properties (length profile.properties) r ≡ some (profile.properties, []))
        (append-nil (properties_bytes profile.properties))
        (read_properties-bytes profile.properties [] ps) in
    rw
      (
        layout version address profile c,
        var_int-encode_var_int version (string_bytes address ++ (profile.uuid ++ named)) v,
        read_str-string_bytes max_string address (profile.uuid ++ named) a (omega (arith, a)),
        uuid,
        behind,
        read_str-string_bytes max_string profile.name count n (omega (arith, n)),
        var_int-encode_var_int (length profile.properties) (properties_bytes profile.properties)
            (omega (arith, c)),
        properties,
      )
      refl
