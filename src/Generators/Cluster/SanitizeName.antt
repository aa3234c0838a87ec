-- ===== src/Generators/Cluster/SanitizeName.antt =====
-- `sanitizeName` of pkg/generators/cluster.go.
use Prim.Native.Char.{Char, code}
use Prim.Native.String.{String}
use applicationset.Prelude.{
  ℕ, ◌≤◌, ◌≡◌, refl, Bool, true, ◌&&◌, ◌||◌, ltb, leb, ◌==◌, if◌then◌else◌, arith, inl, inr,
  Bool-cases,
}
use applicationset.Utils.Chars.{
  lower_char, map_chars, char_count, take_chars, trim_chars, trim_left_chars, AllChars, StartsKept,
  EndsKept, AllChars-map_chars, AllChars-take_chars, char_count-take_chars,
  AllChars-trim_left_chars, AllChars-trim_right_chars, char_count-trim_left_chars,
  char_count-trim_right_chars, trim_left_chars-StartsKept, trim_right_chars-EndsKept,
  trim_right_chars-StartsKept,
}

-- A character that `[^-a-z0-9.]` does not match
unfoldable pub is_dns_name_char : Char → Bool
is_dns_name_char c =
    (leb b'a' (code c) && leb (code c) b'z')
    || ((leb b'0' (code c) && leb (code c) b'9') || (code c == b'-' || code c == b'.'))

-- `ReplaceAllString` of what the expression matches
unfoldable pub replace_invalid_char : Char → Char
unfolding is_dns_name_char
replace_invalid_char c = if is_dns_name_char c then c else "-"

-- The characters that the name is trimmed of
abbrev pub is_separator : Char → Bool
is_separator c = code c == b'-' || code c == b'.'

abbrev pub max_dns_name_length : ℕ
max_dns_name_length = 253

-- `if len(name) > maxDNSNameLength { name = name[:maxDNSNameLength] }`
unfoldable pub shorten : String → String
unfolding take_chars
shorten name =
    if ltb max_dns_name_length (char_count name) then take_chars max_dns_name_length name else name

-- `sanitizeName`
unfoldable pub sanitize_name : String → String
unfolding shorten replace_invalid_char map_chars lower_char trim_chars
sanitize_name name =
    trim_chars is_separator (shorten (map_chars replace_invalid_char (map_chars lower_char name)))

replace_invalid_char-is_dns_name_char :
    (c : Char) → is_dns_name_char (replace_invalid_char c) ≡ true
unfolding replace_invalid_char
replace_invalid_char-is_dns_name_char c = elim (Bool-cases (is_dns_name_char c)) [
  | inl e ↦ rw e e
  | inr e ↦ rw e (unfold is_dns_name_char in refl)
]

shorten_bounds : (name : String) → char_count (shorten name) ≤ max_dns_name_length
unfolding shorten
shorten_bounds name = elim (Bool-cases (ltb max_dns_name_length (char_count name))) [
  | inl e ↦ rw e (char_count-take_chars max_dns_name_length name)
  | inr e ↦ rw e (ground arith)
]

shorten-AllChars : (p : Char → Bool) (name : String) → AllChars p name → AllChars p (shorten name)
unfolding shorten
shorten-AllChars p name h = elim (Bool-cases (ltb max_dns_name_length (char_count name))) [
  | inl e ↦ rw e (AllChars-take_chars p max_dns_name_length name h)
  | inr e ↦ rw e h
]

-- At most 253 characters, of which each may stand in a DNS name, and neither the first nor the last
-- is a separator. The empty text is one.
pub record IsDnsName (s : String) : Type 0 where
  pub short : char_count s ≤ max_dns_name_length
  pub valid : AllChars is_dns_name_char s
  pub starts : StartsKept is_separator s
  pub ends : EndsKept is_separator s

-- Whatever the name, `sanitizeName` returns at most 253 characters, which are lowercase letters,
-- digits, dashes and dots, and starts and ends with a letter or a digit, unless it is empty.
pub sanitize_name-IsDnsName : (name : String) → IsDnsName (sanitize_name name)
unfolding sanitize_name trim_chars
sanitize_name-IsDnsName name =
    let replaced = map_chars replace_invalid_char (map_chars lower_char name) in
    let short_name = shorten replaced in
    let started = trim_left_chars is_separator short_name in
    record {
      short = omega (
        arith,
        shorten_bounds replaced,
        char_count-trim_left_chars is_separator short_name,
        char_count-trim_right_chars is_separator started,
      );
      valid = AllChars-trim_right_chars is_separator is_dns_name_char started (
          AllChars-trim_left_chars is_separator is_dns_name_char short_name (
            shorten-AllChars is_dns_name_char replaced (
              AllChars-map_chars is_dns_name_char replace_invalid_char (map_chars lower_char name)
                replace_invalid_char-is_dns_name_char)));
      starts =
          trim_right_chars-StartsKept is_separator started
            (trim_left_chars-StartsKept is_separator short_name);
      ends = trim_right_chars-EndsKept is_separator started;
    }
