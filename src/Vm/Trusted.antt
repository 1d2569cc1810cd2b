-- ===== src/Vm/Trusted.antt =====
-- The base image is used only with the published checksum.
use telar.Vm.Waiting.{check_run-cases}
use telar.Text.Format.{splitlines}
use telar.Vm.Image.{
  with_digest, curl_words, checksum_name, image_url, partial_name, download, download_image,
  expected_digest, image_name, fetch_base_image, accept_image, Settings,
}
use telar.Vm.System.{
  after_run, read_text, called_process_error, os_error, exists, World, remove, put, System,
  runtime_error, Failure,
}
use telar.Placement.Paired.{lookup, Dict}
use telar.Prelude.{
  false, true, [], ◌∷◌, ap, ◌∙◌, str_eq, Bool-cases, sym, true, ◌≢◌, eq_iff, ℕ, ◌≡◌, refl, ◌⊎◌, inl,
  inr, Option-cases, Option, none, some, String, arith,
}
use telar.Prelude.Result.{err-injective, ok_or_err, Result, ok, err}

lookup-put_self : (k v : String) (d : Dict String) → lookup k (put k v d) ≡ some v
lookup-put_self k v [] = ground (arith, eq_iff k k)
lookup-put_self k v ((j, u) ∷ d) = ground (arith, eq_iff k k, eq_iff j k, lookup-put_self k v d)

lookup-remove_self : (k : String) (d : Dict String) → lookup k (remove k d) ≡ none
lookup-remove_self k [] = refl
lookup-remove_self k ((j, u) ∷ d) = ground (arith, eq_iff j k, lookup-remove_self k d)

read_text-cases :
    (name : String) (w : World)
    → (read_text name w ≡ (w, err os_error))
      ⊎ ((text : String) × (lookup name w.files ≡ some text) × (read_text name w ≡ (w, ok text)))
unfolding read_text
read_text-cases name w = elim (Option-cases (lookup name w.files)) [
  | inl e ↦ rw (e, read_text) (inl refl)
  | inr (text, e) ↦ rw (e, read_text) (inr (text, refl, refl))
]

abbrev message : Failure → String
message (runtime_error text) = text
message e = ""

texts_apart : (s t : String) → str_eq s t ≡ false → runtime_error s ≢ runtime_error t
texts_apart s t e h = let same : str_eq s t ≡ true = (eq_iff s t).1 (ap message h) in cc

abbrev mismatch : Failure
mismatch = runtime_error "image checksum mismatch"

module _ (cfg : Settings) (sys : System) where
  -- The world after the download of the list of checksums.
  abbrev pub with_checksums : World → World
  with_checksums w = after_run sys (curl_words cfg (image_url cfg (checksum_name cfg)) "CHECKSUM") w

  -- The world after the download of the image, which follows.
  abbrev pub with_partial : World → World
  with_partial w =
      after_run sys (curl_words cfg (image_url cfg (image_name cfg)) (partial_name cfg))
        (with_checksums w)

  -- The image that a state ends with is the one downloaded, and has the digest that the downloaded
  -- list of checksums names.
  pub record IsVerified (w end : World) : Type 0 where
    pub image : String
    pub checksums : String
    pub downloaded : lookup "CHECKSUM" (with_checksums w).files ≡ some checksums
    pub partial : lookup (partial_name cfg) (with_partial w).files ≡ some image
    pub stored : lookup (image_name cfg) end.files ≡ some image
    pub published : expected_digest cfg none (splitlines checksums) ≡ some (cfg.sha256 image)

  -- A base image was there before or is verified, and a mismatch leaves no partial download.
  pub record IsFetched (w : World) (end : World × Result Failure String) : Type 0 where
    pub trusted :
        (base : String)
        → end.1 ≡ ok base
        → ((exists (image_name cfg) w ≡ true) × (end.0 ≡ w)) ⊎ IsVerified w end.0
    pub discarded : end.1 ≡ err mismatch → lookup (partial_name cfg) end.0.files ≡ none

  failed-IsFetched : (w w' : World) (e : Failure) → e ≢ mismatch → IsFetched w (w', err e)
  failed-IsFetched w w' e other = record {
    trusted = λ base h. absurd (ok_or_err (sym h));
    discarded = λ h. absurd (other (err-injective h));
  }

  accept_image-IsFetched :
      (w : World) (checksums expected : String)
      → lookup "CHECKSUM" (with_checksums w).files ≡ some checksums
      → expected_digest cfg none (splitlines checksums) ≡ some expected
      → IsFetched w (accept_image cfg sys expected (with_partial w))
  unfolding accept_image
  accept_image-IsFetched w checksums expected read published =
      elim (read_text-cases (partial_name cfg) (with_partial w)) [
        | inl e ↦ rw (e, accept_image) (failed-IsFetched w (with_partial w) os_error (λ h. cc))
        | inr (image, got, e) ↦ elim (Bool-cases (str_eq (cfg.sha256 image) expected)) [
          | inl same ↦
              rw (e, accept_image, same)
                (record {
                  trusted = λ base h. inr (record {
                    image = image;
                    checksums = checksums;
                    downloaded = read;
                    partial = got;
                    stored = lookup-put_self (image_name cfg) image _;
                    published = published ∙ ap some (sym ((eq_iff _ _).0 same));
                  });
                  discarded = λ h. absurd (ok_or_err h);
                })
          | inr other ↦
              rw (e, accept_image, other)
                (record {
                  trusted = λ base h. absurd (ok_or_err (sym h));
                  discarded = λ h. lookup-remove_self (partial_name cfg) (with_partial w).files;
                })
        ]
      ]

  download-cases :
      (url file : String) (w : World)
      → (download cfg sys url file w ≡ (after_run sys (curl_words cfg url file) w, ok tt))
        ⊎ ((w' : World) × (code : ℕ) × (download cfg sys url file w
              ≡ (w', err (called_process_error code))))
  unfolding download
  download-cases url file w = elim (check_run-cases cfg sys (curl_words cfg url file) w) [
    | inl (e, done) ↦ inl e
    | inr e ↦ inr (_, _, e)
  ]

  with_digest-IsFetched :
      (w : World) (checksums : String) (published : Option String)
      → lookup "CHECKSUM" (with_checksums w).files ≡ some checksums
      → expected_digest cfg none (splitlines checksums) ≡ published
      → IsFetched w (with_digest cfg sys published (with_checksums w))
  unfolding with_digest
  with_digest-IsFetched w checksums none read p =
      failed-IsFetched w (with_checksums w) _
        (texts_apart "image checksum not published" "image checksum mismatch" refl)
  with_digest-IsFetched w checksums (some expected) read p =
      elim (download-cases (image_url cfg (image_name cfg)) (partial_name cfg) (with_checksums w)) [
        | inr (w', code, e) ↦ rw (e, with_digest) (failed-IsFetched w w' _ (λ h. cc))
        | inl e ↦ rw (e, with_digest) (accept_image-IsFetched w checksums expected read p)
      ]

  download_image-IsFetched : (w : World) → IsFetched w (download_image cfg sys w)
  unfolding download_image
  download_image-IsFetched w =
      elim (download-cases (image_url cfg (checksum_name cfg)) "CHECKSUM" w) [
        | inr (w', code, e) ↦ rw (e, download_image) (failed-IsFetched w w' _ (λ h. cc))
        | inl e ↦ elim (read_text-cases "CHECKSUM" (with_checksums w)) [
          | inl f ↦ rw (e, download_image, f) (failed-IsFetched w (with_checksums w) _ (λ h. cc))
          | inr (checksums, read, f) ↦
              rw (e, download_image, f) (with_digest-IsFetched w checksums _ read refl)
        ]
      ]

  -- The base image that is returned was there before the call, which then does nothing; or the
  -- state holds under its name the image that was downloaded, whose SHA-256 is the one that the last
  -- matching line of the downloaded CHECKSUM names. After a mismatch no partial download is left.
  pub fetch_base_image-IsFetched : (w : World) → IsFetched w (fetch_base_image cfg sys w)
  unfolding fetch_base_image
  fetch_base_image-IsFetched w = elim (Bool-cases (exists (image_name cfg) w)) [
    | inl there ↦
        rw (there, fetch_base_image)
          (record { trusted = λ base h. inl (there, refl); discarded = λ h. absurd (ok_or_err h) })
    | inr missing ↦ rw (missing, fetch_base_image) (download_image-IsFetched w)
  ]
