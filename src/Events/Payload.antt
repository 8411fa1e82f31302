-- ===== src/Events/Payload.antt =====
-- Event payloads of app/services/event_store.py: JSON values without floating-point numbers, their
-- encoded size, and the search for keys that must not be stored.
pub mod Search
use test_gpt_local.Prelude.{
  ℕ, zero, suc, ◌≤◌, ◌<◌, ◌+◌, ◌-◌, ◌*◌, ◌/◌, ◌%◌, ◌≡◌, ◌≢◌, String, refl, Bool, true, false, ◌&&◌,
  ◌||◌, not, List, [], ◌∷◌, ◌++◌, arith, ltb, leb, if◌then◌else◌, ◌==◌ as nat_eq, Option, none,
  some, inl, inr, ◌⊎◌, Bool-cases,
}
use test_gpt_local.Prelude.Int.{ℤ, pos, negsuc}
use test_gpt_local.Prelude.Text.{◌==◌, mem, codes, is_infix}

mutual
  pub data Json : Type 0 where
    null : Json
    boolean : Bool → Json
    number : ℤ → Json
    text : String → Json
    array : Items → Json
    object : Fields → Json

  pub data Items : Type 0 where
    nil : Items
    cons : Json → Items → Items

  pub data Fields : Type 0 where
    end : Fields
    field : String → Json → Fields → Fields

-- The bytes that `json.dumps(…, ensure_ascii=False).encode("utf-8")` writes for a character.
char_size : ℕ → ℕ
char_size c =
    if nat_eq c 34 || nat_eq c 92 || leb 8 c && leb c 10 || nat_eq c 12 || nat_eq c 13
    then 2
    else if ltb c 32
    then 6
    else if ltb c 0x80
    then 1
    else if ltb c 0x800
    then 2
    else if ltb c 0x10000
    then 3
    else 4

chars_size : List ℕ → ℕ
unfolding char_size
chars_size [] = 0
chars_size (c ∷ cs) = char_size c + chars_size cs

abbrev text_size : String → ℕ
text_size s = chars_size (codes s) + 2

-- The number of decimal digits, on fuel above the number.
digits : ℕ → ℕ → ℕ
digits zero n = 1
digits (suc fuel) n = let longer = suc (digits fuel (n / 10)) in if ltb n 10 then 1 else longer

number_size : ℤ → ℕ
unfolding digits
number_size (pos n) = digits (suc n) n
number_size (negsuc n) = suc (digits (suc (suc n)) (suc n))

-- The sizes with the separators "," and ":". A list's or an object's commas are counted in front of
-- every member but the first.
mutual
  unfolding chars_size number_size

  size : Json → ℕ
  size null = 4
  size (boolean true) = 4
  size (boolean false) = 5
  size (number n) = number_size n
  size (text s) = text_size s
  size (array nil) = 2
  size (array (cons x xs)) = 2 + size x + more_items xs
  size (object end) = 2
  size (object (field k v fs)) = 2 + (text_size k + 1 + size v) + more_fields fs

  more_items : Items → ℕ
  more_items nil = 0
  more_items (cons x xs) = 1 + size x + more_items xs

  more_fields : Fields → ℕ
  more_fields end = 0
  more_fields (field k v fs) = 1 + (text_size k + 1 + size v) + more_fields fs

unfoldable pub encoded_size : Fields → ℕ
unfolding size
encoded_size body = size (object body)

sensitive_keys : List String
sensitive_keys =
    "authorization" ∷ "authorization_header" ∷ "api_key" ∷ "apikey" ∷ "cookie" ∷ "environment"
    ∷ "env" ∷ "script" ∷ "command" ∷ []

-- What the standard library decides by Unicode's tables and by the platform's paths.
pub record TextRules : Type 0 where
  pub casefold : String → String
  pub is_absolute : String → Bool

module _ (rules : TextRules) where
  is_path_text : String → Json → Bool
  unfolding is_infix
  is_path_text key (text s) =
      (is_infix (codes "path") (codes (rules.casefold key))
        || is_infix (codes "directory") (codes (rules.casefold key)))
      && rules.is_absolute s
  is_path_text key _ = false

  unfoldable pub is_sensitive : String → Json → Bool
  unfolding sensitive_keys mem is_path_text
  is_sensitive key nested = mem (rules.casefold key) sensitive_keys || is_path_text key nested

  or_found : Option String → Option String → Option String
  or_found none o = o
  or_found (some k) o = some k

  -- `_find_sensitive_key`: lists are searched for objects, and not for lists of objects.
  mutual
    unfolding is_sensitive or_found

    find_nested : Json → Option String
    find_nested (object fs) = find_fields fs
    find_nested (array xs) = find_items xs
    find_nested null = none
    find_nested (boolean b) = none
    find_nested (number n) = none
    find_nested (text s) = none

    find_items : Items → Option String
    find_items nil = none
    find_items (cons (object fs) xs) = or_found (find_fields fs) (find_items xs)
    find_items (cons _ xs) = find_items xs

    find_fields : Fields → Option String
    find_fields end = none
    find_fields (field key nested fs) =
        if is_sensitive key nested then some key else or_found (find_nested nested) (find_fields fs)

  unfoldable pub find_sensitive_key : Fields → Option String
  unfolding find_fields
  find_sensitive_key fs = find_fields fs
