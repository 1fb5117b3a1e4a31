-- ===== src/ServerProperties/Unchanged.antt =====
-- mc/server_properties.go: contents that rewriteContents leaves alone hold every value already.
use lazygate.Prelude.{
  Bool, true, false, List, [], ◌∷◌, ◌++◌, Bytes, some, ◌≡◌, ◌⊎◌, inl, inr, refl, sym, ap, ◌∙◌,
  arith, TextMap, get_text, same_bytes, same_bytes-eq, Bool-cases, Option-cases, get-delete_text,
  trim_space, to_lower,
}
use lazygate.Play.Title.{split_lines}
use lazygate.ServerProperties.{
  split_property, kept_lines, is_skipped, LineStep, take_change, update_property, rewrite_line,
  rewrite_lines, append_changes, rewrite_contents, join_eol, eol,
}

-- The line holds the value of a property whose name in lower case is the key.
unfoldable pub Holds : Bytes → Bytes → Bytes → Type 0
Holds k v l =
    (kv : Bytes × Bytes) × (split_property l ≡ some kv)
    × (to_lower (trim_space kv.0) ≡ k)
    × (kv.1 ≡ v)

-- One of the lines does.
pub data IsPresent (k v : Bytes) : List Bytes → Type 0 where
  here : (l : Bytes) (ls : List Bytes) → Holds k v l → IsPresent k v (l ∷ ls)
  there : (l : Bytes) (ls : List Bytes) → IsPresent k v ls → IsPresent k v (l ∷ ls)

some_inj : (a b : Bytes) → some a ≡ some b → a ≡ b
some_inj a b e = ground (arith, e)

module _ (k v line name value : Bytes) (e : split_property line ≡ some (name, value)) where
  take_change_kept :
      (new : Bytes) (m : TextMap Bytes)
      → get_text (to_lower (trim_space name)) m ≡ some new
      → (take_change line (trim_space name) value new m).is_new ≡ false
      → get_text k m ≡ some v
      → Holds k v line ⊎ (get_text k (take_change line (trim_space name) value new m).left ≡ some v)
  unfolding Holds
  take_change_kept new m found kept has = elim (Bool-cases (same_bytes value new)) [
    | inr differs ↦ ground (arith, differs, kept)
    | inl same ↦ elim (Bool-cases (same_bytes k (to_lower (trim_space name)))) [
      | inl this ↦
          let is_key = same_bytes-eq k (to_lower (trim_space name)) this in
          let is_new = some_inj new v (sym found ∙ ap (λ j. get_text j m) (sym is_key) ∙ has) in
          inl ((name, value), e, sym is_key, same_bytes-eq value new same ∙ is_new)
      | inr other ↦ inr (rw (same, get-delete_text k (to_lower (trim_space name)) m, other) has)
    ]
  ]

  update_property_kept :
      (m : TextMap Bytes)
      → (update_property line (trim_space name) value m).is_new ≡ false
      → get_text k m ≡ some v
      → Holds k v line ⊎ (get_text k (update_property line (trim_space name) value m).left ≡ some v)
  update_property_kept m kept has = elim (Option-cases (get_text (to_lower (trim_space name)) m)) [
    | inl missing ↦ inr (rw (update_property, missing) has)
    | inr (new, found) ↦
        elim (take_change_kept new m found (sym (ap LineStep.is_new (updated new found)) ∙ kept)
          has) [ inl holds ↦ inl holds | inr later ↦ inr (rw (updated new found) later) ]
  ]
    where
      updated :
          (new : Bytes)
          → get_text (to_lower (trim_space name)) m ≡ some new
          → update_property line (trim_space name) value m
            ≡ take_change line (trim_space name) value new m
      updated new found = rw (update_property, found) refl

rewrite_line_kept :
    (k v line : Bytes) (m : TextMap Bytes)
    → (rewrite_line line m).is_new ≡ false
    → get_text k m ≡ some v
    → Holds k v line ⊎ (get_text k (rewrite_line line m).left ≡ some v)
unfolding rewrite_line
rewrite_line_kept k v line m kept has = elim (Bool-cases (is_skipped line)) [
  | inl skip ↦ inr (rw skip has)
  | inr read ↦ elim (Option-cases (split_property line)) [
    | inl plain ↦ inr (rw (read, plain) has)
    | inr ((name, value), e) ↦
        let updated : rewrite_line line m ≡ update_property line (trim_space name) value m =
          rw (read, e) refl in
        rw (read, e)
          (update_property_kept k v line name value e m (sym (ap LineStep.is_new updated) ∙ kept)
            has)
  ]
]

changed_stays : (ls : List Bytes) (m : TextMap Bytes) → (rewrite_lines ls m true).changed ≡ true
unfolding rewrite_lines
changed_stays [] m = refl
changed_stays (l ∷ ls) m = changed_stays ls (rewrite_line l m).left

rewrite_lines_kept :
    (k v : Bytes) (ls : List Bytes) (m : TextMap Bytes)
    → (rewrite_lines ls m false).changed ≡ false
    → get_text k m ≡ some v
    → IsPresent k v ls ⊎ (get_text k (rewrite_lines ls m false).remaining ≡ some v)
unfolding rewrite_lines
rewrite_lines_kept k v [] m kept has = inr has
rewrite_lines_kept k v (l ∷ ls) m kept has = elim (Bool-cases (rewrite_line l m).is_new) [
  | inl new ↦ ground (arith, new, kept, changed_stays ls (rewrite_line l m).left)
  | inr old ↦ elim (rewrite_line_kept k v l m old has) [
    | inl holds ↦ inl (here l ls holds)
    | inr later ↦
        let so_far =
          ap (λ b. (rewrite_lines ls (rewrite_line l m).left b).changed) (sym old) ∙ kept in
        elim (rewrite_lines_kept k v ls (rewrite_line l m).left so_far later) [
          | inl set ↦ inl (there l ls set)
          | inr still ↦ inr (rw old still)
        ]
  ]
]

append-changed :
    (contents : Bytes) (cs : TextMap Bytes) → (append_changes contents cs true).1 ≡ true
unfolding append_changes
append-changed contents [] = refl
append-changed contents ((key, value) ∷ cs) = append-changed _ cs

nothing_appended :
    (contents : Bytes) (cs : TextMap Bytes) (changed : Bool)
    → (append_changes contents cs changed).1 ≡ false
    → (cs ≡ []) × (changed ≡ false)
unfolding append_changes
nothing_appended contents [] changed kept = (refl, kept)
nothing_appended contents ((key, value) ∷ cs) changed kept =
    ground (arith, kept, append-changed (contents ++ (eol ++ (key ++ (61 ∷ value)))) cs)

-- If rewriteContents answers that nothing changed, then for every change one line of the contents has
-- a property whose name in lower case is the change's key and whose value is the change's.
pub rewrite_contents-unchanged :
    (contents k v : Bytes) (changes : TextMap Bytes)
    → (rewrite_contents contents changes).1 ≡ false
    → get_text k changes ≡ some v
    → IsPresent k v (kept_lines (split_lines contents))
unfolding rewrite_contents
rewrite_contents-unchanged contents k v [] kept has = ground (arith, has)
rewrite_contents-unchanged contents k v (c ∷ cs) kept has =
    let ls = kept_lines (split_lines contents) in
    let done = rewrite_lines ls (c ∷ cs) false in
    let (none_left, same) =
      nothing_appended (join_eol done.new_lines) done.remaining done.changed kept in
    elim (rewrite_lines_kept k v ls (c ∷ cs) same has) [
      | inl set ↦ set
      | inr later ↦ ground (arith, later, none_left)
    ]
