-- ===== src/Python.antt =====
-- What the program takes from the interpreter and its modules, as parameters: Unicode case mapping,
-- `re.sub`, SHA-256, and the JSON form of the few values that the program compares.
use trilith.Prelude.{
  String, Bool, Option, List, [], ◌∷◌, ◌≡◌, refl, true, is_ascii, ascii_upper, ascii_lower,
}

-- JSON values
mutual
  pub data Json : Type 0 where
    string : String → Json
    array : Elements → Json
    object : Members → Json

  pub data Elements : Type 0 where
    no_elements : Elements
    element : Json → Elements → Elements

  pub data Members : Type 0 where
    no_members : Members
    member : String → Json → Members → Members

-- What `json.loads` of an item's content gives, as far as folding looks at it.
pub data Loaded : Type 0 where
  -- a dict, with its "strategy" and "outcome" where they are texts
  dict : Option String → Option String → Loaded
  -- another value, or a ValueError
  no_dict : Loaded

pub record Python : Type 0 where
  -- `s.upper()`, `s.lower()`
  pub upper : String → String
  pub lower : String → String
  -- `re.compile(pattern).sub(replacement, text)`
  pub sub : String → String → String → String
  -- `hashlib.sha256(text.encode("utf-8")).hexdigest()`
  pub sha256 : String → String
  -- `unicodedata.normalize("NFKC", text).casefold()`
  pub folded : String → String
  -- `re.findall(r"\w+", text)`
  pub find_words : String → List String
  -- `re.split(pattern, text)[0]`
  pub split_first : String → String → String
  pub loads : String → Loaded
  -- `json.dumps(value)`, with `ensure_ascii`
  pub dumps : Bool → Json → String

-- Documented behaviour that proofs rely on: ASCII letters are mapped one by one.
pub record IsPython (py : Python) : Type 0 where
  pub upper_ascii : (s : String) → is_ascii s ≡ true → py.upper s ≡ ascii_upper s
  pub lower_ascii : (s : String) → is_ascii s ≡ true → py.lower s ≡ ascii_lower s

-- An instance: case mapping on ASCII letters only, no redaction, a hash that is the identity, and a text
-- as its only word.
abbrev pub plain_python : Python
plain_python = record {
  upper = ascii_upper;
  lower = ascii_lower;
  sub = λ pattern replacement text. text;
  sha256 = λ text. text;
  folded = ascii_lower;
  find_words = λ text. text ∷ [];
  split_first = λ pattern text. text;
  loads = λ text. no_dict;
  dumps = λ ascii value. "json";
}

pub plain_python-IsPython : IsPython plain_python
plain_python-IsPython = record { upper_ascii = λ s h. refl; lower_ascii = λ s h. refl }
