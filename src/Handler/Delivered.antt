-- ===== src/Handler/Delivered.antt =====
-- A file that `send_file` of handler.py cuts into chunks, at the handler that receives them.
use mathlib.Core.Path.{subst}
use langbot_plugin_sdk.Prelude.{
  ℕ, zero, suc, ◌+◌, ◌-◌, ◌*◌, ◌/◌, ◌≤◌, ◌<◌, ◌≡◌, ◌≢◌, refl, sym, ap, ◌∙◌, ◌⊎◌, inl, inr, true,
  false, ◌&&◌, not, Option, none, some, List, [], ◌∷◌, ◌++◌, length, take, drop, length-take, leb,
  max, lstrip, rstrip, ok, ◌==◌, nat_eq, list_eq, list_beq_iff, ==_refl, arith, Bool-cases,
}
use langbot_plugin_sdk.Prelude.Dict
use langbot_plugin_sdk.Prelude.Dict.{Dict}
use langbot_plugin_sdk.Prelude.Int.{pos}
use langbot_plugin_sdk.Handler.Files.{
  Text, Bytes, text, integer, Chunk, Transfers, Base64, file_chunk_length,
  max_active_file_transfers, is_empty, is_owned, exceeds, before, mem, file_storage_path,
  check_chunk, with_owner, store_chunk, file_chunk, read_local_file,
}
use langbot_plugin_sdk.Handler.Transfer.{Naming, key_name, requests, send_file, deliver}
use langbot_plugin_sdk.Handler.SafeKey.{IsStrip, IsNaming, IsExtension, key_name-safe}

-- `b64decode` reads what `b64encode` wrote, four characters for each three bytes.
pub record IsBase64 (b : Base64) : Type 0 where
  pub decode_encode : (t : Bytes) → b.decode (b.encode t) ≡ some t
  pub length_encode : (t : Bytes) → length (b.encode t) ≡ (length t + 2) / 3 * 4

take-drop : (m n : ℕ) (xs : Bytes) → take m xs ++ take n (drop m xs) ≡ take (m + n) xs
take-drop zero n xs = grind arith
take-drop (suc m) zero [] = grind arith
take-drop (suc m) (suc n) [] = grind arith
take-drop (suc m) n (x ∷ xs) =
    ap (λ t. x ∷ t) (take-drop m n xs) ∙ ap (λ k. take k (x ∷ xs)) (suc-add m n)
  where
    suc-add : (k l : ℕ) → suc (k + l) ≡ suc k + l
    suc-add k l = omega arith

next_offset : (i L : ℕ) → i * L + L ≡ (i + 1) * L
next_offset i L = grind arith

take_all : (n : ℕ) (xs : Bytes) → length xs ≤ n → take n xs ≡ xs
take_all zero [] h = refl
take_all zero (x ∷ xs) h = ground arith
take_all (suc n) [] h = refl
take_all (suc n) (x ∷ xs) h = ap (λ t. x ∷ t) (take_all n xs (omega (arith, h)))

-- The receiver has room for a file of `size` bytes under `key`.
pub record HasRoom (s : Transfers) (key : Text) (size : ℕ) : Type 0 where
  pub room : (is_owned s key ≡ true) ⊎ (length s.owned_transfer_files < max_active_file_transfers)
  pub fits : (limit : ℕ) → s.max_file_bytes ≡ some limit → size ≤ limit

-- What holds before the chunk `i`: there is room, and the chunks before it are stored.
record IsStored (s₀ : Transfers) (key : Text) (file_bytes : Bytes) (L i : ℕ) (s : Transfers)
    : Type 0 where
  room : (is_owned s key ≡ true) ⊎ (length s.owned_transfer_files < max_active_file_transfers)
  limit : s.max_file_bytes ≡ s₀.max_file_bytes
  stored : before s key i ≡ take (i * L) file_bytes
  present : 1 ≤ i → Dict.get s.files key ≡ some (take (i * L) file_bytes)
  others : (k : Text) → k ≢ key → Dict.get s.files k ≡ Dict.get s₀.files k

mem-snoc : (key : Text) (ks : List Text) → mem (λ k. k == key) (ks ++ key ∷ []) ≡ true
mem-snoc key [] = ground (arith, ==_refl key)
mem-snoc key (k ∷ ks) = ground (arith, mem-snoc key ks)

pub with_owner-owned : (s : Transfers) (key : Text) → mem (λ k. k == key) (with_owner s key) ≡ true
with_owner-owned s key = elim (Bool-cases (is_owned s key)) [
  | inl owned ↦ rw owned owned
  | inr new ↦ rw new (mem-snoc key s.owned_transfer_files)
]

before-next :
    (s : Transfers) (key : Text) (i : ℕ) (content : Bytes)
    → Dict.get s.files key ≡ some content
    → before s key (i + 1) ≡ content
before-next s key i content e = rw e (ground arith)

pub get-set_other :
    (files : Dict Text Bytes) (key k : Text) (content : Bytes)
    → k ≢ key
    → Dict.get (Dict.set files key content) k ≡ Dict.get files k
get-set_other files key k content other = elim (Bool-cases (key == k)) [
  | inl same ↦ absurd (other (sym ((list_beq_iff key k).0 same)))
  | inr different ↦ Dict.get-set files key content k ∙ (rw different refl)
]

exceeds-le :
    (limit : Option ℕ) (size : ℕ)
    → ((l : ℕ) → limit ≡ some l → size ≤ l)
    → exceeds limit size ≡ false
exceeds-le none size h = refl
exceeds-le (some l) size h = ground (arith, h l refl)

is_empty-nil : (t : Text) → is_empty t ≡ true → t ≡ []
is_empty-nil [] h = refl
is_empty-nil (c ∷ t) h = cc

module _ (strip : Text → Text) (base64 : Base64) (v : IsBase64 base64) where
  check_chunk-request :
      (key : Text) (amount i : ℕ) (content : Bytes)
      → file_storage_path strip (text key) ≡ ok key
      → i < amount
      → length content ≤ file_chunk_length
      → check_chunk strip base64 (record {
        file_key = text key;
        chunk_base64 = text (base64.encode content);
        chunk_index = integer (pos i);
        chunk_amount = integer (pos amount);
      })
        ≡ ok (key, i, content)
  unfolding check_chunk
  check_chunk-request key amount i content safe below short =
      ground (arith, safe, v.decode_encode content, v.length_encode content)

  store_chunk-IsStored :
      (s₀ s : Transfers) (key : Text) (file_bytes : Bytes) (L i : ℕ)
      → ((limit : ℕ) → s₀.max_file_bytes ≡ some limit → length file_bytes ≤ limit)
      → IsStored s₀ key file_bytes L i s
      → (s' : Transfers) × (store_chunk s key i (take L (drop (i * L) file_bytes)) ≡ (s', ok tt))
        × IsStored s₀ key file_bytes L (i + 1) s'
  unfolding store_chunk
  store_chunk-IsStored s₀ s key file_bytes L i fits h =
      let content : before s key i ++ take L (drop (i * L) file_bytes)
          ≡ take (i * L + L) file_bytes =
        ap (λ t. t ++ take L (drop (i * L) file_bytes)) h.stored ∙ take-drop (i * L) L file_bytes in
      let allowed : (not (is_owned s key)
            && leb max_active_file_transfers (length s.owned_transfer_files))
          ≡ false =
        ground (arith, h.room) in
      let small : exceeds s.max_file_bytes (length (take (i * L + L) file_bytes)) ≡ false =
        exceeds-le s.max_file_bytes _
          (λ l e. omega (arith, fits l (sym h.limit ∙ e), length-take (i * L + L) file_bytes)) in
      let s' : Transfers = record s {
        owned_transfer_files = with_owner s key;
        files = Dict.set s.files key (take (i * L + L) file_bytes);
      } in
      let stored : Dict.get s'.files key ≡ some (take (i * L + L) file_bytes) =
        Dict.get-set_self s.files key _ in
      (
        s',
        rw (allowed, content, small) refl,
        record {
          room = inl (with_owner-owned s key);
          limit = h.limit;
          stored = before-next s' key i _ stored ∙ ap (λ n. take n file_bytes) (next_offset i L);
          present = λ later. stored ∙ ap (λ n. some (take n file_bytes)) (next_offset i L);
          others = λ k other. get-set_other s.files key k _ other ∙ h.others k other;
        },
      )

  deliver-cons :
      (s s' : Transfers) (c : Chunk) (cs : List Chunk) (key : Text) (i : ℕ) (content : Bytes)
      → check_chunk strip base64 c ≡ ok (key, i, content)
      → store_chunk s key i content ≡ (s', ok tt)
      → deliver strip base64 s (c ∷ cs) ≡ deliver strip base64 s' cs
  unfolding deliver file_chunk
  deliver-cons s s' c cs key i content checked stored = ground (arith, checked, stored)

  -- The chunks from the index `i` on.
  deliver-requests :
      (s₀ s : Transfers) (key : Text) (file_bytes : Bytes) (amount i left : ℕ)
      → file_storage_path strip (text key) ≡ ok key
      → ((limit : ℕ) → s₀.max_file_bytes ≡ some limit → length file_bytes ≤ limit)
      → i + left ≡ amount
      → IsStored s₀ key file_bytes file_chunk_length i s
      → (s' : Transfers) × (deliver strip base64 s
            (requests base64 key file_chunk_length amount file_bytes i left)
          ≡ (s', ok tt))
        × IsStored s₀ key file_bytes file_chunk_length amount s'
  unfolding deliver requests
  deliver-requests s₀ s key file_bytes amount i zero safe fits count h = (
    s,
    refl,
    subst (λ n. IsStored s₀ key file_bytes file_chunk_length n s) (omega (arith, count)) h,
  )
  deliver-requests s₀ s key file_bytes amount i (suc left) safe fits count h =
      let piece = take file_chunk_length (drop (i * file_chunk_length) file_bytes) in
      let checked =
        check_chunk-request key amount i piece safe (omega (arith, count)) (
          omega (arith, length-take file_chunk_length (drop (i * file_chunk_length) file_bytes))) in
      let (s', stored, h') = store_chunk-IsStored s₀ s key file_bytes file_chunk_length i fits h in
      let (s'', delivered, done) =
        deliver-requests s₀ s' key file_bytes amount (i + 1) left safe fits (omega (arith, count))
          h' in
      (s'', deliver-cons s s' _ _ key i piece checked stored ∙ delivered, done)

  read_local_file_stored :
      (s : Transfers) (key : Text) (content : Bytes)
      → file_storage_path strip (text key) ≡ ok key
      → Dict.get s.files key ≡ some content
      → exceeds s.max_file_bytes (length content) ≡ false
      → read_local_file strip s key ≡ ok content
  unfolding read_local_file
  read_local_file_stored s key content safe stored small = ground (arith, safe, stored, small)

  abbrev chunk_count : Bytes → ℕ
  chunk_count file_bytes = max 1 ((length file_bytes + file_chunk_length - 1) / file_chunk_length)

  send_file-inverse :
      (limit : Option ℕ) (n : Naming) (file_bytes : Bytes) (extension : Text) (key : Text)
      (cs : List Chunk)
      → send_file base64 limit n file_bytes extension ≡ ok (key, cs)
      → let x = rstrip b'.' (lstrip b'.' extension) in
        IsExtension x
        × (key_name n file_bytes x ≡ key)
        × (requests base64 key file_chunk_length
              (chunk_count file_bytes)
              file_bytes
              0
              (chunk_count file_bytes)
            ≡ cs)
  unfolding send_file
  send_file-inverse limit n file_bytes extension key cs e =
      ground (arith, e, is_empty-nil (rstrip b'.' (lstrip b'.' extension)))

  -- Every file that `send_file` accepts arrives: provided that the receiver has a transfer free and
  -- takes files of this size, it accepts every chunk, reading the key then returns exactly the bytes
  -- that were sent, and no other file has changed.
  pub read_local_file-send_file :
      (limit : Option ℕ) (n : Naming) (file_bytes : Bytes) (extension key : Text) (cs : List Chunk)
      (s : Transfers)
      → IsStrip strip
      → IsNaming n
      → send_file base64 limit n file_bytes extension ≡ ok (key, cs)
      → HasRoom s key (length file_bytes)
      → (s' : Transfers) × (deliver strip base64 s cs ≡ (s', ok tt))
        × (read_local_file strip s' key ≡ ok file_bytes)
        × ((k : Text) → k ≢ key → Dict.get s'.files k ≡ Dict.get s.files k)
  read_local_file-send_file limit n file_bytes extension key cs s w named sent room =
      let amount = chunk_count file_bytes in
      let (valid, is_key, is_cs) = send_file-inverse limit n file_bytes extension key cs sent in
      let safe : file_storage_path strip (text key) ≡ ok key =
        subst (λ k. file_storage_path strip (text k) ≡ ok k) is_key
          (key_name-safe strip n file_bytes (rstrip b'.' (lstrip b'.' extension)) w named valid) in
      let start : IsStored s key file_bytes file_chunk_length 0 s = record {
        room = room.room;
        limit = refl;
        stored = refl;
        present = λ h. absurd (omega (arith, h));
        others = λ k other. refl;
      } in
      let (s', delivered, done) =
        deliver-requests s s key file_bytes amount 0 amount safe room.fits (omega arith) start in
      let whole : take (amount * file_chunk_length) file_bytes ≡ file_bytes =
        take_all (amount * file_chunk_length) file_bytes (omega arith) in
      let stored : Dict.get s'.files key ≡ some file_bytes =
        done.present (omega arith) ∙ ap some whole in
      let small : exceeds s'.max_file_bytes (length file_bytes) ≡ false =
        exceeds-le s'.max_file_bytes (length file_bytes)
          (λ l e. room.fits l (sym done.limit ∙ e)) in
      (
        s',
        ap (deliver strip base64 s) (sym is_cs) ∙ delivered,
        read_local_file_stored s' key file_bytes safe stored small,
        done.others,
      )
