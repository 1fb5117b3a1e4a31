-- ===== src/Play/Title.antt =====
-- proto/packets/play/title.go: the title and the subtitle of a text, and their packets.
use lazygate.Prelude.{
  ℕ, ◌*◌, Bool, true, false, ◌&&◌, List, [], ◌∷◌, ◌++◌, Bytes, Option, if◌then◌else◌, ◌==◌, ◌≡◌,
  ◌≢◌, refl, arith, ap, All,
}
use lazygate.Proto.Client.{ClientInfo, get_protocol}
use lazygate.Proto.Framing.{RawPacket, new_raw_packet}
use lazygate.Proto.Json.{chat_message_json}
use lazygate.Proto.Writer.{big_endian32, string_bytes}
use lazygate.Play.Ids.{is_v1_20_1, is_from_1_17}

abbrev pub cons_first : ℕ → List Bytes → List Bytes
cons_first c [] = (c ∷ []) ∷ []
cons_first c (l ∷ ls) = (c ∷ l) ∷ ls

-- `strings.Split(text, "\n")`
unfoldable pub split_lines : Bytes → List Bytes
split_lines [] = [] ∷ []
split_lines (c ∷ s) = let rest = split_lines s in if c == 10 then [] ∷ rest else cons_first c rest

-- `strings.TrimSuffix(l, "\r")`
unfoldable pub trim_return : Bytes → Bytes
trim_return [] = []
trim_return (c ∷ []) = if c == 13 then [] else c ∷ []
trim_return (c ∷ d ∷ s) = c ∷ trim_return (d ∷ s)

-- `if l == "" { continue }`
abbrev pub keep_line : Bytes → List Bytes → List Bytes
keep_line [] rest = rest
keep_line (c ∷ s) rest = (c ∷ s) ∷ rest

-- The loop over the lines.
unfoldable pub shown_lines : List Bytes → List Bytes
unfolding trim_return
shown_lines [] = []
shown_lines (l ∷ ls) = keep_line (trim_return l) (shown_lines ls)

-- `strings.Join(lines, "\n")`
unfoldable pub join_lines : List Bytes → Bytes
join_lines [] = []
join_lines (l ∷ []) = l
join_lines (l ∷ k ∷ ls) = l ++ (10 ∷ join_lines (k ∷ ls))

-- `lines[0]` and `strings.Join(lines[1:], "\n")`, or nothing
abbrev pub title_and_subtitle : List Bytes → Bytes × Bytes
title_and_subtitle [] = ([], [])
title_and_subtitle (l ∷ ls) = (l, join_lines ls)

abbrev pub is_empty : Bytes → Bool
is_empty [] = true
is_empty (c ∷ s) = false

abbrev pub title_times : Bool → Bytes
title_times reset =
    if reset
    then big_endian32 10 ++ (big_endian32 70 ++ big_endian32 20)
    else big_endian32 0 ++ (big_endian32 (10 * 20 * 2) ++ big_endian32 0)

abbrev pub chat_message_bytes : Bytes → Bytes
chat_message_bytes text = string_bytes (chat_message_json text)

-- One packet id with an action byte, or three packet ids.
unfoldable pub title_packets_of : Option ℕ → Bytes → Bytes → List RawPacket
title_packets_of protocol title subtitle =
    let times = title_times (is_empty title && is_empty subtitle) in
    let three = λ (text sub when : ℕ).
      new_raw_packet text (chat_message_bytes title)
      ∷ new_raw_packet sub (chat_message_bytes subtitle)
      ∷ new_raw_packet when times
      ∷ [] in
    if is_v1_20_1 protocol
    then three 0x5f 0x5d 0x60
    else if is_from_1_17 protocol
    then three 0x59 0x57 0x5a
    else new_raw_packet 0x4f (0 ∷ chat_message_bytes title)
      ∷ new_raw_packet 0x4f (1 ∷ chat_message_bytes subtitle)
      ∷ new_raw_packet 0x4f (3 ∷ times)
      ∷ []

-- `SendTitle`
unfoldable pub title_packets : ClientInfo → Bytes → List RawPacket
unfolding title_packets_of split_lines shown_lines join_lines
title_packets info text =
    let (title, subtitle) = title_and_subtitle (shown_lines (split_lines text)) in
    title_packets_of (get_protocol info) title subtitle

-- A line that is shown as it is: not empty, without line breaks or returns.
abbrev pub IsLine : Bytes → Type 0
IsLine l = (l ≢ []) × All (λ c. (c ≢ 10) × (c ≢ 13)) l

split_lines-line : (l : Bytes) → All (λ c. (c ≢ 10) × (c ≢ 13)) l → split_lines l ≡ l ∷ []
unfolding split_lines
split_lines-line [] h = refl
split_lines-line (c ∷ l) h =
    let other : (c == 10) ≡ false = ground arith in rw (other, split_lines-line l h.1) refl

split_lines-append :
    (l s : Bytes)
    → All (λ c. (c ≢ 10) × (c ≢ 13)) l
    → split_lines (l ++ (10 ∷ s)) ≡ l ∷ split_lines s
unfolding split_lines
split_lines-append [] s h = refl
split_lines-append (c ∷ l) s h =
    let other : (c == 10) ≡ false = ground arith in rw (other, split_lines-append l s h.1) refl

trim_return_lem : (l : Bytes) → All (λ c. (c ≢ 10) × (c ≢ 13)) l → trim_return l ≡ l
unfolding trim_return
trim_return_lem [] h = refl
trim_return_lem (c ∷ []) h = let other : (c == 13) ≡ false = ground arith in rw other refl
trim_return_lem (c ∷ d ∷ l) h = ap (λ t. c ∷ t) (trim_return_lem (d ∷ l) h.1)

keep_line_lem : (l : Bytes) (rest : List Bytes) → l ≢ [] → keep_line l rest ≡ l ∷ rest
keep_line_lem [] rest h = absurd (h refl)
keep_line_lem (c ∷ l) rest h = refl

shown_lines-join_lines :
    (l : Bytes) (ls : List Bytes)
    → IsLine l
    → All IsLine ls
    → shown_lines (split_lines (join_lines (l ∷ ls))) ≡ l ∷ ls
unfolding shown_lines join_lines
shown_lines-join_lines l [] h k =
    rw (split_lines-line l h.1, trim_return_lem l h.1, keep_line_lem l [] h.0) refl
shown_lines-join_lines l (m ∷ ls) h k =
    rw
      (
        split_lines-append l (join_lines (m ∷ ls)) h.1,
        trim_return_lem l h.1,
        shown_lines-join_lines m ls k.0 k.1,
        keep_line_lem l (m ∷ ls) h.0,
      )
      refl

-- A text of lines that are not empty and hold no return is shown with its first line as the title and the others as
-- the subtitle, with a line break between any two of them.
pub title_packets-join_lines :
    (info : ClientInfo) (l : Bytes) (ls : List Bytes)
    → IsLine l
    → All IsLine ls
    → title_packets info (join_lines (l ∷ ls))
      ≡ title_packets_of (get_protocol info) l (join_lines ls)
unfolding title_packets
title_packets-join_lines info l ls h k =
    ap (λ t. title_packets_of (get_protocol info) (title_and_subtitle t).0 (title_and_subtitle t).1)
      (shown_lines-join_lines l ls h k)
