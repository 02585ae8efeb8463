-- ===== src/Handler/SafeKey.antt =====
-- The keys of handler.py: what `_file_storage_path` accepts, and the keys that `send_file` makes.
use mathlib.Core.List.{append-nil, append_assoc}
use langbot_plugin_sdk.Prelude.{
  ℕ, zero, suc, ◌≤◌, ◌≡◌, refl, sym, ap, ◌∙◌, ◌⊎◌, inl, inr, Bool, true, false, not, [], ◌∷◌, ◌++◌,
  length, take, length-append, length-take, le→leb, ok, ◌==◌, nat_eq, list_eq, list_beq_iff, arith,
  Bool-cases,
}
use langbot_plugin_sdk.Handler.Files.{
  Text, Bytes, text, every, is_alphanumeric, is_key_char, is_extension_char, matches_key,
  matches_extension, has_dots, has_char, file_storage_path,
}
use langbot_plugin_sdk.Handler.Transfer.{Naming, key_name, suffix}

-- `str.strip` removes white space at the ends.
pub record IsStrip (strip : Text → Text) : Type 0 where
  pub keeps : (t : Text) → every is_key_char t ≡ true → strip t ≡ t

-- The names are hexadecimal.
pub record IsNaming (n : Naming) : Type 0 where
  pub sha256_chars : (b : Bytes) → every is_alphanumeric (n.sha256 b) ≡ true
  pub sha256_length : (b : Bytes) → length (n.sha256 b) ≡ 64
  pub uuid_chars : every is_alphanumeric n.uuid ≡ true
  pub uuid_length : length n.uuid ≡ 32

every-append :
    (p : ℕ → Bool) (s t : Text) → every p s ≡ true → every p t ≡ true → every p (s ++ t) ≡ true
every-append p [] t hs ht = ht
every-append p (c ∷ s) t hs ht = ground (arith, hs, every-append p s t)

every-take : (p : ℕ → Bool) (n : ℕ) (t : Text) → every p t ≡ true → every p (take n t) ≡ true
every-take p zero t h = refl
every-take p (suc n) [] h = refl
every-take p (suc n) (c ∷ t) h = ground (arith, h, every-take p n t)

alphanumeric-key : (t : Text) → every is_alphanumeric t ≡ true → every is_key_char t ≡ true
alphanumeric-key [] h = refl
alphanumeric-key (c ∷ t) h = ground (arith, h, alphanumeric-key t)

extension-key : (t : Text) → every is_extension_char t ≡ true → every is_key_char t ≡ true
extension-key [] h = refl
extension-key (c ∷ t) h = ground (arith, h, extension-key t)

has_char-key :
    (d : ℕ) (t : Text) → is_key_char d ≡ false → every is_key_char t ≡ true → has_char d t ≡ false
has_char-key d [] h k = refl
has_char-key d (c ∷ t) h k = elim (Bool-cases (c == d)) [
  | inl same ↦ ground (arith, h, k, same)
  | inr other ↦ ground (arith, h, k, other, has_char-key d t)
]

-- No dot.
abbrev is_plain : ℕ → Bool
is_plain c = not (c == b'.')

alphanumeric-plain : (t : Text) → every is_alphanumeric t ≡ true → every is_plain t ≡ true
alphanumeric-plain [] h = refl
alphanumeric-plain (c ∷ t) h = ground (arith, h, alphanumeric-plain t)

extension-plain : (t : Text) → every is_extension_char t ≡ true → every is_plain t ≡ true
extension-plain [] h = refl
extension-plain (c ∷ t) h = ground (arith, h, extension-plain t)

has_dots-plain : (t : Text) → every is_plain t ≡ true → has_dots t ≡ false
has_dots-plain [] h = refl
has_dots-plain (c ∷ []) h = refl
has_dots-plain (c ∷ d ∷ t) h = ground (arith, h, has_dots-plain (d ∷ t))

has_dots-dot :
    (s t : Text)
    → every is_plain s ≡ true
    → every is_plain t ≡ true
    → has_dots (s ++ b'.' ∷ t) ≡ false
has_dots-dot [] [] hs ht = refl
has_dots-dot [] (c ∷ t) hs ht = ground (arith, ht, has_dots-plain (c ∷ t))
has_dots-dot (c ∷ []) t hs ht = ground (arith, hs, has_dots-dot [] t)
has_dots-dot (c ∷ d ∷ s) t hs ht = ground (arith, hs, has_dots-dot (d ∷ s) t)

-- An extension that `send_file` accepts.
abbrev pub IsExtension : Text → Type 0
IsExtension t = (t ≡ []) ⊎ (matches_extension t ≡ true)

extension-every : (t : Text) → IsExtension t → (every is_extension_char t ≡ true) × (length t ≤ 32)
unfolding matches_extension
extension-every [] h = (refl, omega arith)
extension-every (c ∷ t) h = ground (arith, h)

suffix-facts :
    (s t : Text)
    → every is_plain s ≡ true
    → IsExtension t
    → (has_dots (s ++ suffix t) ≡ false)
      × (every is_key_char (suffix t) ≡ true)
      × (length (suffix t) ≤ 33)
suffix-facts s [] hs ht = (rw append-nil (has_dots-plain s hs), refl, omega arith)
suffix-facts s (c ∷ t) hs ht =
    let (chars, short) = extension-every (c ∷ t) ht in
    (
      has_dots-dot s (c ∷ t) hs (extension-plain (c ∷ t) chars),
      extension-key (c ∷ t) chars,
      omega (arith, short),
    )

matches_key-every :
    (c : ℕ) (t : Text)
    → is_alphanumeric c ≡ true
    → every is_key_char t ≡ true
    → length t ≤ 254
    → matches_key (c ∷ t) ≡ true
unfolding matches_key
matches_key-every c t hc ht short = ground (arith, hc, ht, le→leb (length t) 254)

-- What the tests of `_file_storage_path` accept.
file_storage_path-ok :
    (strip : Text → Text) (key : Text)
    → IsStrip strip
    → every is_key_char key ≡ true
    → matches_key key ≡ true
    → has_dots key ≡ false
    → file_storage_path strip (text key) ≡ ok key
unfolding file_storage_path matches_key
file_storage_path-ok strip [] v chars matches dots = ground (arith, matches)
file_storage_path-ok strip (c ∷ t) v chars matches dots =
    rw
      (
        v.keeps (c ∷ t) chars,
        (list_beq_iff (c ∷ t) (c ∷ t)).1 refl,
        has_char-key b'/' (c ∷ t) refl chars,
        has_char-key b'\\' (c ∷ t) refl chars,
        dots,
        matches,
      )
      refl

name-safe :
    (strip : Text → Text) (hash uuid extension : Text)
    → IsStrip strip
    → every is_alphanumeric hash ≡ true
    → length hash ≡ 16
    → every is_alphanumeric uuid ≡ true
    → length uuid ≡ 32
    → IsExtension extension
    → file_storage_path strip (text (hash ++ b'-' ∷ (uuid ++ suffix extension)))
      ≡ ok (hash ++ b'-' ∷ (uuid ++ suffix extension))
name-safe strip [] uuid extension v hc hl uc ul x = absurd (omega (arith, hl))
name-safe strip (c ∷ hash) uuid extension v hc hl uc ul x =
    file_storage_path-ok strip _ v (ground (arith, alphanumeric-key (c ∷ hash) hc, tail_chars))
      (matches_key-every c _ (ground (arith, hc)) tail_chars (
        omega (
          arith,
          hl,
          ul,
          facts.2,
          length-append hash (b'-' ∷ (uuid ++ suffix extension)),
          length-append uuid (suffix extension),
        )))
      (ap has_dots (sym (append_assoc (c ∷ hash) (b'-' ∷ uuid) (suffix extension))) ∙ facts.0)
  where
    plain : every is_plain ((c ∷ hash) ++ b'-' ∷ uuid) ≡ true
    plain =
        every-append is_plain (c ∷ hash) (b'-' ∷ uuid) (alphanumeric-plain (c ∷ hash) hc)
          (alphanumeric-plain uuid uc)

    facts :
        (has_dots (((c ∷ hash) ++ b'-' ∷ uuid) ++ suffix extension) ≡ false)
        × (every is_key_char (suffix extension) ≡ true)
        × (length (suffix extension) ≤ 33)
    facts = suffix-facts ((c ∷ hash) ++ b'-' ∷ uuid) extension plain x

    tail_chars : every is_key_char (hash ++ b'-' ∷ (uuid ++ suffix extension)) ≡ true
    tail_chars =
        every-append is_key_char hash _ (ground (arith, hc, alphanumeric-key hash))
          (every-append is_key_char uuid _ (alphanumeric-key uuid uc) facts.1)

-- The key of a file that is sent is accepted where it arrives.
pub key_name-safe :
    (strip : Text → Text) (n : Naming) (file_bytes : Bytes) (extension : Text)
    → IsStrip strip
    → IsNaming n
    → IsExtension extension
    → file_storage_path strip (text (key_name n file_bytes extension))
      ≡ ok (key_name n file_bytes extension)
key_name-safe strip n file_bytes extension v w h =
    name-safe strip (take 16 (n.sha256 file_bytes)) n.uuid extension v
      (every-take is_alphanumeric 16 (n.sha256 file_bytes) (w.sha256_chars file_bytes))
      (omega (arith, length-take 16 (n.sha256 file_bytes), w.sha256_length file_bytes)) w.uuid_chars
      w.uuid_length h
