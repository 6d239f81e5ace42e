-- ===== src/DefinitionFile/Files.antt =====
-- Decode, Encode and Export of internal/definitionfile/definitionfile.go.
use mathlib.Core.Path.{subst}
use text.Mathlib.TextLemmas.{append-nil}
use alerts.Common.{
  ℕ, String, ◌<>◌, Bool, true, Option, none, some, List, Result, ok, err, ◌≡◌, ◌≢◌, refl, sym, ap,
  ◌∙◌,
}
use alerts.Model.{Float64, Rule, AlertDefinition}
use alerts.DefinitionFile.{
  Manifest, ManifestError, RequestError, validate_manifest, new_manifest, checked,
}

pub data ReadError : Type 0 where
  end_of_file : ReadError
  bad_json : String → ReadError

-- encoding/json: the text that the encoder writes, and a Decoder over a text, which refuses unknown fields or not.
-- One call reads a manifest and leaves the rest of the text, the other reads an empty struct.
pub record ManifestJson (F : Type 0) : Type 0 where
  pub write : Manifest F → Result String String
  pub read_manifest : Bool → String → Result ReadError (Manifest F × String)
  pub read_empty : Bool → String → Option ReadError

pub data FileError : Type 0 where
  not_written : String → FileError
  not_read : ReadError → FileError
  multiple_values : FileError
  not_valid : ManifestError → FileError

module _ {F : Type 0} ⦃fl : Float64 F⦄ (json : ManifestJson F) where
  unfoldable pub encode : Manifest F → Result FileError String
  unfolding validate_manifest
  encode m = elim (validate_manifest m) [
    | some x ↦ err (not_valid x)
    | none ↦ elim (json.write m) [ err x ↦ err (not_written x) | ok text ↦ ok text ]
  ]

  -- What follows the first value: nothing but the end of the file.
  abbrev only_value :
      Option ReadError → Result FileError (Manifest F) → Result FileError (Manifest F)
  only_value none r = err multiple_values
  only_value (some (bad_json x)) r = err (not_read (bad_json x))
  only_value (some end_of_file) r = r

  abbrev valid_only : Manifest F → Option ManifestError → Result FileError (Manifest F)
  valid_only m (some x) = err (not_valid x)
  valid_only m none = ok m

  unfoldable pub decode : String → Result FileError (Manifest F)
  unfolding validate_manifest
  decode text = elim (json.read_manifest true text) [
    | err x ↦ err (not_read x)
    | ok (m, rest) ↦ only_value (json.read_empty true rest) (valid_only m (validate_manifest m))
  ]

  -- What was read under the checks is a valid manifest alone in its text.
  abbrev IsAlone : String → Manifest F → Type 0
  IsAlone text m =
      (rest : String) × (json.read_manifest true text ≡ ok (m, rest))
      × (json.read_empty true rest ≡ some end_of_file)
      × (validate_manifest m ≡ none)

  decode-IsAlone : (text : String) (m : Manifest F) → decode text ≡ ok m → IsAlone text m
  unfolding decode
  decode-IsAlone text m h = first (json.read_manifest true text) refl h
    where
      last :
          (n : Manifest F) (rest : String) (x : Option ReadError) (e : Option ManifestError)
          → json.read_manifest true text ≡ ok (n, rest)
          → json.read_empty true rest ≡ x
          → validate_manifest n ≡ e
          → only_value x (valid_only n e) ≡ ok m
          → IsAlone text m
      last n rest none e r i w h = cc
      last n rest (some (bad_json x)) e r i w h = cc
      last n rest (some end_of_file) (some x) r i w h = cc
      last n rest (some end_of_file) none r i w h =
          let same : n ≡ m = cc in
          (rest, r ∙ ap (λ n. ok (n, rest)) same, i, sym (ap validate_manifest same) ∙ w)

      first :
          (r : Result ReadError (Manifest F × String))
          → json.read_manifest true text ≡ r
          → (let out : Result FileError (Manifest F) = elim r [
            | err x ↦ err (not_read x)
            | ok (n, rest) ↦
                only_value (json.read_empty true rest) (valid_only n (validate_manifest n))
          ] in
              out)
            ≡ ok m
          → IsAlone text m
      first (err x) e h = cc
      first (ok (n, rest)) e h =
          last n rest (json.read_empty true rest) (validate_manifest n) e refl refl h

  encode-valid :
      (m : Manifest F) (t : String)
      → validate_manifest m ≡ none
      → json.write m ≡ ok t
      → encode m ≡ ok t
  unfolding encode
  encode-valid m t h w = went (validate_manifest m) (json.write m) h w
    where
      went :
          (e : Option ManifestError) (r : Result String String)
          → e ≡ none
          → r ≡ ok t
          → (let out : Result FileError String = elim e [
            | some x ↦ err (not_valid x)
            | none ↦ elim r [ err x ↦ err (not_written x) | ok text ↦ ok text ]
          ] in
              out)
            ≡ ok t
      went (some x) r h k = cc
      went none (err x) h k = cc
      went none (ok u) h k = cc

  decode-alone :
      (m : Manifest F) (text rest : String)
      → json.read_manifest true text ≡ ok (m, rest)
      → json.read_empty true rest ≡ some end_of_file
      → validate_manifest m ≡ none
      → decode text ≡ ok m
  unfolding decode
  decode-alone m text rest r i w =
      ap read r
      ∙ ap (λ x. only_value x (valid_only m (validate_manifest m))) i
      ∙ ap (valid_only m) w
    where
      read : Result ReadError (Manifest F × String) → Result FileError (Manifest F)
      read (err x) = err (not_read x)
      read (ok (m, rest)) =
          only_value (json.read_empty true rest) (valid_only m (validate_manifest m))

  -- The manifest of a file that Decode takes can be encoded, and Decode takes the text that Encode writes for it as
  -- the same manifest; it takes no text that holds a manifest twice. This is so where encoding/json writes any
  -- manifest that it has read, reads such a text up to its last line break, finds the end of the file after a line
  -- break, and does not find it before another manifest.
  pub encode-decode :
      ((m : Manifest F) (text rest : String)
        → json.read_manifest true text ≡ ok (m, rest)
        → (t : String) × (json.write m ≡ ok t))
      → ((m : Manifest F) (t more : String)
          → json.write m ≡ ok t
          → json.read_manifest true (t <> more) ≡ ok (m, "\n" <> more))
      → json.read_empty true "\n" ≡ some end_of_file
      → ((m : Manifest F) (t : String)
          → json.write m ≡ ok t
          → json.read_empty true ("\n" <> t) ≢ some end_of_file)
      → (text : String) (m n : Manifest F) → decode text ≡ ok m
      → (t : String) × (encode m ≡ ok t) × (decode t ≡ ok m) × (decode (t <> t) ≢ ok n)
  encode-decode writes reads ends differs text m n h =
      let (rest, r, i, w) = decode-IsAlone text m h in
      let (t, k) = writes m text rest r in
      (
        t,
        encode-valid m t w k,
        decode-alone m t "\n"
            (subst (λ u. json.read_manifest true u ≡ ok (m, "\n")) (append-nil t) (reads m t "" k))
            ends w,
        (λ d.
            let (more, r', i', w') = decode-IsAlone (t <> t) n d in
            differs m t k (ap (json.read_empty true) (cut (sym (reads m t t k) ∙ r')) ∙ i')),
      )
    where
      Read : Type 0
      Read = Result ReadError (Manifest F × String)

      cut : {a b : Manifest F} {s u : String} → (let r : Read = ok (a, s) in r) ≡ ok (b, u) → s ≡ u
      cut e = cc

-- Client.Export, where the server answers a list of definitions
unfoldable pub export :
    {F S : Type 0}
    → (Rule F → String)
    → (S → S × Result String (ℕ × Option (List (AlertDefinition F))))
    → S
    → S × Result RequestError (Manifest F)
unfolding new_manifest
export rule_json fetch s =
    let (s', answer) = fetch s in
    (s', elim (checked answer) [ err x ↦ err x | ok (status, ds) ↦ ok (new_manifest rule_json ds) ])
