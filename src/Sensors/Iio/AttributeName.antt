-- ===== src/Sensors/Iio/AttributeName.antt =====
-- interfaces/sensors/mainline/backends/iio/IioTypes.cpp and IioTypes.h: the names of attribute files
-- in sysfs, in_<type>[<index>][_<modifier>]_<postfix>.
use android_hardware_mainlin.Prelude.{
  ℕ, zero, suc, ◌+◌, ◌-◌, ◌*◌, ◌/◌, ◌%◌, ◌^◌, ◌≤◌, ◌<◌, bit_and, bit_or, String, ◌≡◌, refl, sym, ap,
  subst, ◌∙◌, ap₂, subst₂, ◌≢◌, ◌↔◌, ◌⊎◌, inl, inr, Bool, true, false, not, ◌&&◌, ◌||◌, Option,
  none, some, List, [], ◌∷◌, ◌++◌, map, append-nil, append_assoc, arith, ltb, leb, ◌==◌,
  if◌then◌else◌, ==_iff, ==_refl, Bool-cases, Option-cases, is_some, get_or_else, length,
  length-append, get_elem?, is_empty, any_of, find_if, All, All-append, All-mono, ℤ, pos, negsuc,
  pos_part, neg_part, sub_ℕ, ◌+ℤ◌, ◌-ℤ◌, ◌*ℤ◌, ◌≤ℤ◌, ◌<ℤ◌, ltb_ℤ, ◌==ℤ◌, ==ℤ_iff, min_ℤ, Bytes,
  codes, bytes_eq, bytes_eq_iff, Key, nat_key, bytes_key, lookup, insert, erase, lookup-insert,
  lookup-erase, contains, AndroidBase, SplitsAtEach, ◌>>=◌, ◌>>◌, guard, bit_and-mask, bit_and-flag,
  bit_or-high_low, bit_or-low_high, pow-pos, two_pow-suc, two_pow-add, mod_unique, sort_by,
  IsSortedBy, IsOrder, sort_by-perm, sort_by-IsSortedBy, All-sort_by,
}
pub mod Words
pub mod Parts
pub mod Spelling
use android_hardware_mainlin.Sensors.Iio.ScanType.{leading_digits, after_digits, decimal}
use android_hardware_mainlin.Sensors.Iio.AttributeName.Words.{channel_types, modifiers, postfixes}

pub record IioChannelId : Type 0 where
  pub type : Bytes
  pub index : ℤ
  pub modifier : Bytes

pub record IioParsedAttribute : Type 0 where
  pub id : IioChannelId
  pub postfix : Bytes

unfoldable pub is_timestamp_id : IioChannelId → Bool
is_timestamp_id id = bytes_eq id.type (codes "timestamp")

-- `key += std::to_string(index)` from index 0 on.
unfoldable pub index_text : ℤ → Bytes
unfolding decimal
index_text (pos n) = decimal n
index_text (negsuc n) = []

unfoldable pub modifier_text : Bytes → Bytes
modifier_text modifier = if is_empty modifier then [] else codes "_" ++ modifier

-- IioChannelId::Key.
unfoldable pub key : IioChannelId → Bytes
unfolding index_text modifier_text
key id = codes "in_" ++ (id.type ++ (index_text id.index ++ modifier_text id.modifier))

unfoldable pub take : ℕ → Bytes → Bytes
take zero bytes = []
take (suc n) [] = []
take (suc n) (b ∷ bytes) = b ∷ take n bytes

unfoldable pub drop : ℕ → Bytes → Bytes
drop zero bytes = bytes
drop (suc n) [] = []
drop (suc n) (b ∷ bytes) = drop n bytes

-- The postfix and the body before it.
unfoldable pub find_postfix : AndroidBase → Bytes → List Bytes → Option (Bytes × Bytes)
unfolding take
find_postfix base body [] = none
find_postfix base body (candidate ∷ rest) =
    let found_later = find_postfix base body rest in
    if base.ends_with body (codes "_" ++ candidate)
    then some (candidate, take (length body - length (codes "_" ++ candidate)) body)
    else found_later

-- The loop over the types, with the best type so far.
unfoldable pub longest_type : AndroidBase → Bytes → List Bytes → Bytes → Bytes
longest_type base body [] best = best
longest_type base body (type ∷ rest) best =
    longest_type base body rest
      (if ltb (length best) (length type) && base.starts_with body type then type else best)

-- The index, -1 without digits, and what stands after it.
unfoldable pub parse_index : AndroidBase → Bytes → Option (ℤ × Bytes)
unfolding leading_digits after_digits
parse_index base body =
    if is_empty (leading_digits body)
    then some (negsuc 0, body)
    else (base.parse_int (leading_digits body) >>= λ index. some (index, after_digits body))

unfoldable pub parse_modifier : Bytes → Option Bytes
parse_modifier [] = some []
parse_modifier (c ∷ body) = if c == b'_' then find_if (bytes_eq body) modifiers else none

-- What ParseIioAttributeName does once the postfix is known.
unfoldable pub parse_id : AndroidBase → Bytes → Option IioChannelId
unfolding longest_type parse_index parse_modifier drop
parse_id base body = do
  guard (not (is_empty (longest_type base body channel_types [])))
  index ← parse_index base (drop (length (longest_type base body channel_types [])) body)
  modifier ← parse_modifier index.1
  some record {
    type = longest_type base body channel_types [];
    index = index.0;
    modifier = modifier;
  }

unfoldable pub parse_iio_attribute_name : AndroidBase → Bytes → Option IioParsedAttribute
unfolding find_postfix parse_id drop
parse_iio_attribute_name base filename = do
  guard (base.starts_with filename (codes "in_"))
  found ← find_postfix base (drop 3 filename) postfixes
  id ← parse_id base found.1
  some record { id = id; postfix = found.0 }
