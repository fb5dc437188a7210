-- ===== src/Sensors/Iio/AttributeName/Spelling.antt =====
-- interfaces/sensors/mainline/backends/iio/IioTypes.cpp: the names that ParseIioAttributeName takes.
use android_hardware_mainlin.Prelude.{
  ◌≤◌, ◌≡◌, refl, sym, ap, ◌∙◌, ap₂, ◌⊎◌, inl, inr, true, not, some, List, [], ◌∷◌, ◌++◌, arith,
  ◌==◌, ==_iff, Bool-cases, Option-cases, length, is_empty, All, ℤ, negsuc, Bytes, codes, nat_key,
  bytes_key, AndroidBase, OnSome, OnSome-mono, Holds, >>=-Holds, guard-Holds, Holds-some,
  OnSome-some,
}
use android_hardware_mainlin.Sensors.Iio.ScanType.{is_digit, leading_digits, after_digits}
use android_hardware_mainlin.Sensors.Iio.AttributeName.{
  IioChannelId, IioParsedAttribute, modifier_text, drop, find_postfix, longest_type, parse_index,
  parse_modifier, parse_id, parse_iio_attribute_name,
}
use android_hardware_mainlin.Sensors.Iio.AttributeName.Words.{channel_types, modifiers, postfixes}
use android_hardware_mainlin.Sensors.Iio.AttributeName.Parts.{
  TestsAffixes, IsWord, EndsWithPostfix, drop-append, find_if-IsWord, find_postfix-splits,
  longest_type-IsPrefix, longest_type-longest, longest_type-IsWord,
}

-- The digits of an index and its value; no digits stand for -1.
abbrev pub SpellsIndex : AndroidBase → Bytes → ℤ → Type 0
SpellsIndex base digits index =
    ((digits ≡ []) × (index ≡ negsuc 0))
    ⊎ (All (λ c. is_digit c ≡ true) digits × (base.parse_int digits ≡ some index))

-- The body of a name between "in_" and the postfix.
pub record SpellsId (base : AndroidBase) (body : Bytes) (id : IioChannelId) : Type 0 where
  pub digits : Bytes
  pub body_text : body ≡ id.type ++ (digits ++ modifier_text id.modifier)
  pub index_value : SpellsIndex base digits id.index
  pub type_word : IsWord id.type channel_types
  pub type_longest :
      All (λ w. base.starts_with body w ≡ true → length w ≤ length id.type) channel_types
  pub modifier_word : (id.modifier ≡ []) ⊎ IsWord id.modifier modifiers

pub record SpellsAttribute (base : AndroidBase) (filename : Bytes) (attribute : IioParsedAttribute)
    : Type 0 where
  pub body : Bytes
  pub text : filename ≡ codes "in_" ++ (body ++ (codes "_" ++ attribute.postfix))
  pub postfix_word : IsWord attribute.postfix postfixes
  pub id_spelled : SpellsId base body attribute.id

digits_split : (body : Bytes) → body ≡ leading_digits body ++ after_digits body
unfolding leading_digits after_digits
digits_split [] = refl
digits_split (c ∷ body) = elim (Bool-cases (is_digit c)) [
  | inl digit ↦ rw digit (ap (◌∷◌ c) (digits_split body))
  | inr other ↦ rw other refl
]

leading_digits-digits : (body : Bytes) → All (λ c. is_digit c ≡ true) (leading_digits body)
unfolding leading_digits
leading_digits-digits [] = tt
leading_digits-digits (c ∷ body) = elim (Bool-cases (is_digit c)) [
  | inl digit ↦ rw digit (digit, leading_digits-digits body)
  | inr other ↦ rw other tt
]

abbrev SplitsIndex : AndroidBase → Bytes → ℤ × Bytes → Type 0
SplitsIndex base body found =
    (digits : Bytes) × (body ≡ digits ++ found.1) × SpellsIndex base digits found.0

parse_index-splits :
    (base : AndroidBase) (body : Bytes) → OnSome (SplitsIndex base body) (parse_index base body)
unfolding parse_index
parse_index-splits base body = elim (Bool-cases (is_empty (leading_digits body))) [
  | inl no_digits ↦ rw no_digits ([], refl, inl (refl, refl))
  | inr some_digits ↦ rw some_digits (elim (Option-cases (base.parse_int (leading_digits body))) [
    | inl unread ↦ rw unread tt
    | inr (value, read) ↦
        rw read (leading_digits body, digits_split body, inr (leading_digits-digits body, read))
  ])
]

abbrev SplitsModifier : Bytes → Bytes → Type 0
SplitsModifier body modifier =
    (body ≡ modifier_text modifier) × ((modifier ≡ []) ⊎ IsWord modifier modifiers)

modifier_text-word :
    (modifier : Bytes) → IsWord modifier modifiers → modifier_text modifier ≡ codes "_" ++ modifier
unfolding modifier_text
modifier_text-word [] h = absurd (ground arith)
modifier_text-word (c ∷ modifier) h = refl

parse_modifier-splits : (body : Bytes) → OnSome (SplitsModifier body) (parse_modifier body)
unfolding parse_modifier modifier_text
parse_modifier-splits [] = (refl, inl refl)
parse_modifier-splits (c ∷ body) = elim (Bool-cases (c == b'_')) [
  | inl bar ↦ rw bar (
      OnSome-mono (λ m. (body ≡ m) × IsWord m modifiers) (SplitsModifier (c ∷ body)) _
        (λ m h. (ap₂ ◌∷◌ ((==_iff c b'_').0 bar) h.0 ∙ sym (modifier_text-word m h.1), inr h.1))
        (find_if-IsWord body modifiers))
  | inr other ↦ rw other tt
]

IsWord-nonempty :
    (found : Bytes) (words : List Bytes)
    → not (is_empty found) ≡ true
    → (found ≡ []) ⊎ IsWord found words
    → IsWord found words
IsWord-nonempty found words h (inl none_found) =
    absurd (ground (arith, sym h ∙ ap (λ b. not (is_empty b)) none_found))
IsWord-nonempty found words h (inr word) = word

module _ (base : AndroidBase) (affixes : TestsAffixes base) where
  parse_id-spells : (body : Bytes) → Holds (SpellsId base body) (parse_id base body)
  unfolding parse_id
  parse_id-spells body =
      let type = longest_type base body channel_types [] in
      let prefix = longest_type-IsPrefix base affixes body channel_types [] (body, refl) in
      let rest : drop (length type) body ≡ prefix.0 =
        ap (drop (length type)) prefix.1 ∙ drop-append type prefix.0 in
      guard-Holds (not (is_empty type)) λ nonempty.
        >>=-Holds (parse_index base (drop (length type) body)) λ index read.
          >>=-Holds (parse_modifier index.1) λ modifier read_modifier.
            let digits =
              OnSome-some (SplitsIndex base (drop (length type) body)) index
                (parse_index-splits base (drop (length type) body)) read in
            let word =
              OnSome-some (SplitsModifier index.1) modifier (parse_modifier-splits index.1)
                read_modifier in
            record {
              held = record {
                digits = digits.0;
                body_text =
                    prefix.1
                    ∙ ap (λ r. type ++ r) (sym rest ∙ digits.1 ∙ ap (λ r. digits.0 ++ r) word.0);
                index_value = digits.2;
                type_word =
                    IsWord-nonempty type channel_types nonempty
                      (longest_type-IsWord base affixes body channel_types [] type refl);
                type_longest =
                    longest_type-longest base affixes body channel_types [] (length type)
                      (omega arith);
                modifier_word = word.1;
              };
            }

  -- Every attribute file name that ParseIioAttributeName takes is "in_", one of the channel types,
  -- the digits of the index or none for -1, the modifier behind "_" or none, and "_" with one of
  -- the postfixes, in this order; and no channel type that starts the name after "in_" is longer than
  -- the one returned.
  pub parse_iio_attribute_name-spells :
      (filename : Bytes) (attribute : IioParsedAttribute)
      → parse_iio_attribute_name base filename ≡ some attribute
      → SpellsAttribute base filename attribute
  unfolding parse_iio_attribute_name
  parse_iio_attribute_name-spells filename attribute e =
      Holds-some {P = SpellsAttribute base filename} attribute
        (guard-Holds (base.starts_with filename (codes "in_")) λ starts.
          >>=-Holds (find_postfix base (drop 3 filename) postfixes) λ found split.
            >>=-Holds (parse_id base found.1) λ id parsed.
              let prefix = affixes.starts_with_prefix filename (codes "in_") starts in
              let halves =
                OnSome-some (EndsWithPostfix (drop 3 filename) postfixes) found
                  (find_postfix-splits base affixes (drop 3 filename) postfixes) split in
              record {
                held = record {
                  body = found.1;
                  text =
                      prefix.1
                      ∙ ap (λ b. codes "in_" ++ b)
                          (sym (ap (drop 3) prefix.1 ∙ drop-append (codes "in_") prefix.0)
                            ∙ halves.0);
                  postfix_word = halves.1;
                  id_spelled = Holds-some id (parse_id-spells found.1) parsed;
                };
              })
        e
