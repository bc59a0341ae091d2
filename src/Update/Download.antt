-- ===== src/Update/Download.antt =====
-- cmd/update.go: a release, what the network answers for it, and the archive of its binary.
use op_forward.Endpoint.Address.{ParseError}
use op_forward.Prelude.{
  ℕ, true, false, not, Option, none, some, List, [], ◌∷◌, ◌==◌, if◌then◌else◌, Text, codes, text_eq,
}

-- `githubRelease` and `githubAsset`.
pub record Asset : Type 0 where
  pub name : Text
  pub url : Text

pub record Release : Type 0 where
  pub tag_name : Text
  pub assets : List Asset

-- The ways to fail, each with its own message.
pub data UpdateError : Type 0 where
  unsupported : UpdateError
  not_fetched : Text → UpdateError
  api_status : ℕ → UpdateError
  bad_release : UpdateError
  no_binary : UpdateError
  not_downloaded : Text → UpdateError
  download_status : ℕ → UpdateError
  bad_gzip bad_tarball bad_entry not_in_tarball : UpdateError
  not_resolved : UpdateError
  not_replaced : UpdateError
  bad_endpoint : ParseError → UpdateError
  not_back : UpdateError

pub data Attempt {ℓ} (A : Type ℓ) : Type ℓ where
  done : A → Attempt A
  failed : UpdateError → Attempt A

-- `tr.Next` and `io.ReadAll`: an entry's name, and its content unless reading fails, or an error. The
-- end of the list is `io.EOF`.
pub data Next : Type 0 where
  entry : Text → Option Text → Next
  next_failed : Next

-- A decompressed archive, or an error of `gzip.NewReader`.
pub data Archive : Type 0 where
  archive : List Next → Archive
  no_gzip : Archive

abbrev read_entry : Option Text → Attempt Text
read_entry none = failed bad_entry
read_entry (some content) = done content

-- The loop of `extractBinaryFromTarGz`.
unfoldable pub extract_from : List Next → Attempt Text
extract_from [] = failed not_in_tarball
extract_from (next_failed ∷ rest) = failed bad_tarball
extract_from (entry name content ∷ rest) = elim (text_eq name (codes "op-forward")) [
  | true ↦ read_entry content
  | false ↦ extract_from rest
]

unfoldable pub extract_binary : Archive → Attempt Text
extract_binary no_gzip = failed bad_gzip
extract_binary (archive entries) = extract_from entries

-- A response with its status and body, or the text of an error.
pub data Response {ℓ} (A : Type ℓ) : Type ℓ where
  response : ℕ → A → Response A
  no_response : Text → Response A

abbrev decoded : Option Release → Attempt Release
decoded none = failed bad_release
decoded (some release) = done release

abbrev pub fetched : (Text → Option Release) → Response Text → Attempt Release
fetched decode (no_response e) = failed (not_fetched e)
fetched decode (response status body) =
    if not (status == 200) then failed (api_status status) else decoded (decode body)

-- The loop over the assets: the URL of the first one of that name.
unfoldable pub find_asset : Text → List Asset → Text
unfolding text_eq
find_asset name [] = []
find_asset name (a ∷ assets) = elim (text_eq a.name name) [
  | true ↦ a.url
  | false ↦ find_asset name assets
]

abbrev pub unpacked : Response Archive → Attempt Text
unpacked (no_response e) = failed (not_downloaded e)
unpacked (response status body) =
    if not (status == 200) then failed (download_status status) else extract_binary body
