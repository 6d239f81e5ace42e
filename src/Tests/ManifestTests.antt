-- ===== src/Tests/ManifestTests.antt =====
-- The theorems on manifests, at a concrete manifest and a server that creates everything.
use mathlib.Core.Path.{subst, ap₂}
use mathlib.Core.List.{Perm}
use Prim.Native.String.append
use alerts.Common.{
  ℕ, ◌+◌, String, none, some, [], ◌∷◌, map, All, ◌<>◌, ◌≢◌, Bool, true, false, Option, List,
  if◌then◌else◌, ◌==◌, string_eq, sym, ap, ◌∙◌, Result, ok, err, ◌≡◌, ◌↔◌, refl, str_beq,
}
use alerts.Common.Int.{ℤ, pos}
use alerts.Model.{Series, Rule, AlertDefinition}
use alerts.Service.{new_definition}
use alerts.DefinitionFile.{
  Definition, Manifest, schema, portable, Transport, validate_manifest, new_manifest,
  import_manifest,
}
use alerts.DefinitionFile.Acceptance.{IsCreated, validate_manifest_iff}
use alerts.DefinitionFile.Sorting.{IsSorted, new_manifest-IsSorted}
use alerts.DefinitionFile.Counts.{Accounts, import_manifest-Accounts}
use alerts.DefinitionFile.Files.{
  ReadError, end_of_file, ManifestJson, encode, decode, encode-decode,
}
use alerts.Tests.{
  whole_numbers, sample_platform, bitcoin, red_candle, red_alert, sample_repository, sample_service,
}

abbrev red_definition : Definition ℕ
red_definition = record {
  name = "red";
  enabled = none;
  series = bitcoin;
  rule = red_candle;
  evaluation_mode = "";
  trigger_mode = "";
  cooldown_seconds = pos 60;
}

abbrev red_manifest : Manifest ℕ
red_manifest = record { schema = schema; definitions = red_definition ∷ [] }

abbrev rule_text : Rule ℕ → String
rule_text r = "{}"

-- Every request is answered with status 201 and the same definition; the server counts the requests.
abbrev creating : Transport ℕ ℕ
creating s request = (s + 1, ok (201, some red_alert))

validate_manifest_iff_example :
    validate_manifest red_manifest ≡ none
    ↔ ((red_manifest.schema ≡ schema) × All IsCreated red_manifest.definitions)
validate_manifest_iff_example = validate_manifest_iff red_manifest

new_manifest-IsSorted_example :
    IsSorted rule_text (new_manifest rule_text (red_alert ∷ red_alert ∷ [])).definitions
    × Perm
        (map portable (red_alert ∷ red_alert ∷ []))
        (new_manifest rule_text (red_alert ∷ red_alert ∷ [])).definitions
new_manifest-IsSorted_example = new_manifest-IsSorted rule_text (red_alert ∷ red_alert ∷ [])

-- The text that the hash of a definition covers
abbrev content : Series → Rule ℕ → String → String → ℤ → String
content series rule mode trigger cooldown = series.symbol <> mode <> trigger

-- A definition that Create makes.
abbrev red_stored : AlertDefinition ℕ
red_stored =
    new_definition sample_repository content sample_service "red" bitcoin red_candle (pos 60) 1
      ("confirmed_close", "on_occurrence")

import_manifest-Accounts_example : Accounts 1 (import_manifest creating red_manifest 0)
import_manifest-Accounts_example = import_manifest-Accounts creating red_manifest 0

abbrev no_definitions : Manifest ℕ
no_definitions = record { schema = schema; definitions = [] }

-- An encoding of the manifest without definitions only, as a letter and a line break.
write_one : Manifest ℕ → Result String String
write_one m = elim m.definitions [
  | [] ↦ if m.schema == schema then ok "e\n" else err "not known"
  | d ∷ ds ↦ err "not known"
]

read_one : String → Result ReadError (Manifest ℕ × String)
read_one String.[] = err end_of_file
read_one (String.◌∷◌ c rest) = ok (no_definitions, rest)

-- The end of the file, after a line break or at once
end_of : String → Option ReadError
end_of String.[] = some end_of_file
end_of (String.◌∷◌ c String.[]) = some end_of_file
end_of (String.◌∷◌ c (String.◌∷◌ d rest)) = none

abbrev one_text : ManifestJson ℕ
one_text = record {
  write = write_one;
  read_manifest = λ strict text. read_one text;
  read_empty = λ strict text. end_of text;
}

write_one_lem :
    (m : Manifest ℕ) (t : String) → write_one m ≡ ok t → (no_definitions ≡ m) × ("e\n" ≡ t)
unfolding write_one
write_one_lem m t h = went m.definitions refl h
  where
    schemed :
        (b : Bool)
        → (m.schema == schema) ≡ b
        → [] ≡ m.definitions
        → (let r : Result String String = if b then ok "e\n" else err "not known" in r) ≡ ok t
        → (no_definitions ≡ m) × ("e\n" ≡ t)
    schemed true e d h = (
      ap₂ (λ s ds. record { schema = s; definitions = ds })
          (sym ((string_eq.same_iff m.schema schema).0 e)) d,
      cc,
    )
    schemed false e d h = cc

    went :
        (ds : List (Definition ℕ))
        → ds ≡ m.definitions
        → (let r : Result String String = elim ds [
          | [] ↦ if m.schema == schema then ok "e\n" else err "not known"
          | d ∷ ds ↦ err "not known"
        ] in
            r)
          ≡ ok t
        → (no_definitions ≡ m) × ("e\n" ≡ t)
    went [] e h = schemed (m.schema == schema) refl e h
    went (d ∷ ds) e h = cc

read-write :
    (m : Manifest ℕ) (t more : String)
    → write_one m ≡ ok t
    → read_one (t <> more) ≡ ok (m, "\n" <> more)
unfolding read_one
read-write m t more h =
    let (e, k) = write_one_lem m t h in
    let first : "e\n" <> more ≡ String.◌∷◌ "e" ("\n" <> more) = append.cons "e" "\n" more in
    subst (λ t. read_one (t <> more) ≡ ok (m, "\n" <> more)) k
      (ap read_one first ∙ ap (λ n. answer n ("\n" <> more)) e)
  where
    answer : Manifest ℕ → String → Result ReadError (Manifest ℕ × String)
    answer m rest = ok (m, rest)

write-read :
    (m : Manifest ℕ) (text rest : String)
    → read_one text ≡ ok (m, rest)
    → (t : String) × (write_one m ≡ ok t)
unfolding read_one write_one str_beq
write-read m String.[] rest h = cc
write-read m (String.◌∷◌ c s) rest h =
    let same : no_definitions ≡ m = cc in ("e\n", subst (λ m. write_one m ≡ ok "e\n") same refl)

not_ended :
    (m : Manifest ℕ) (t : String) → write_one m ≡ ok t → end_of ("\n" <> t) ≢ some end_of_file
unfolding end_of
not_ended m t h =
    subst (λ t. end_of ("\n" <> t) ≢ some end_of_file) (write_one_lem m t h).1 open_end
  where
    open_end : end_of "\ne\n" ≢ some end_of_file
    open_end k = cc

at_end : end_of "\n" ≡ some end_of_file
unfolding end_of
at_end = refl

one_decoded : decode one_text "e\n" ≡ ok no_definitions
unfolding decode read_one end_of str_beq
one_decoded = refl

encode-decode_example :
    (t : String) × (encode one_text no_definitions ≡ ok t)
    × (decode one_text t ≡ ok no_definitions)
    × (decode one_text (t <> t) ≢ ok no_definitions)
encode-decode_example =
    encode-decode one_text write-read read-write at_end not_ended "e\n" no_definitions
      no_definitions one_decoded
