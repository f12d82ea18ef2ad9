-- ===== src/Registry/Repository.antt =====
-- `Repository` of lib/registry/repository.go: tags, images and their removal. The services of docker's
-- distribution are an interface over the state `W` of the registry, which only a removal changes.
use dim.Prelude.{
  String, ◌≡◌, refl, ap, subst, ◌≢◌, ◌⊎◌, inl, inr, Option, none, some, List, Option-cases,
}
use dim.Prelude.Errors.{Result, ok, err, panic, ◌>>=◌, >>=-eq-ok, Result-cases}
use dim.Prelude.Exec.{Exec}
use dim.Types.{RegistryImage, empty_registry_image}

-- `M` is a manifest service and `Mf` a manifest.
pub record Distribution (W M Mf : Type 0) : Type 0 where
  pub all_tags : W → Result (List String)
  pub get_tag : String → W → Result String
  pub manifests : W → Result M
  pub get_manifest : M → (digest : String) → W → Result Mf
  pub payload : Mf → Result String
  pub get_blob : (digest : String) → W → Result String
  pub delete : M → (digest : String) → Exec W (Unit {0})

-- `json.Unmarshal` into a manifest, of which the digest of its configuration is read, and into an
-- image that has its tag and digest already.
pub record Json : Type 0 where
  pub config_digest : String → Result String
  pub image : String → RegistryImage → Result RegistryImage

-- The repository with the manifest service that it keeps.
pub record RepositoryState (W M : Type 0) : Type 0 where
  pub registry : W
  pub mfs : Option M

module _ {W M Mf : Type 0} (d : Distribution W M Mf) (json : Json) where
  abbrev keep_service : Result M → Exec (RepositoryState W M) M
  keep_service (ok service) s = (ok service, record s { mfs = some service })
  keep_service (err e) s = (err e, s)
  keep_service panic s = (panic, s)

  unfoldable pub manifest_service : Exec (RepositoryState W M) M
  manifest_service s = elim s.mfs [
    | some service ↦ (ok service, s)
    | none ↦ keep_service (d.manifests s.registry) s
  ]

  unfoldable pub get_tag_digest : String → W → Result String
  get_tag_digest tag w = d.get_tag tag w

  -- What follows once the manifest service is there.
  unfoldable pub read_image : M → (digest tag : String) → W → Result RegistryImage
  read_image service digest tag w = d.get_manifest service digest w >>= λ mf.
      d.payload mf >>= λ manifest. json.config_digest manifest >>= λ config.
      d.get_blob config w >>= λ blob.
      json.image blob (record empty_registry_image { tag = tag; digest = digest })

  unfoldable pub image_from_manifest :
      (digest tag : String) → Exec (RepositoryState W M) RegistryImage
  image_from_manifest digest tag s =
      let (service, s') = manifest_service s in
      (service >>= λ m. read_image m digest tag s'.registry, s')

  unfoldable pub image : String → Exec (RepositoryState W M) RegistryImage
  image tag s = elim (get_tag_digest tag s.registry) [
    | ok digest ↦ image_from_manifest digest tag s
    | err e ↦ (err e, s)
    | panic ↦ (panic, s)
  ]

  abbrev delete_with : Result M → String → Exec (RepositoryState W M) (Unit {0})
  delete_with (ok service) digest s =
      let (r, w) = d.delete service digest s.registry in (r, record s { registry = w })
  delete_with (err e) digest s = (err e, s)
  delete_with panic digest s = (panic, s)

  unfoldable pub delete_image : String → Exec (RepositoryState W M) (Unit {0})
  delete_image tag s = elim (get_tag_digest tag s.registry) [
    | ok digest ↦ let (service, s') = manifest_service s in delete_with service digest s'
    | err e ↦ (err e, s)
    | panic ↦ (panic, s)
  ]

  manifest_service_lem : (s : RepositoryState W M) → ((manifest_service s).1).registry ≡ s.registry
  unfolding manifest_service
  manifest_service_lem s = elim (Option-cases s.mfs) [
    | inr (m, held) ↦ rw held
    | inl empty ↦ elim (Result-cases (d.manifests s.registry)) [
      | inl (m, got) ↦ rw (empty, got)
      | inr (inl (e, bad)) ↦ rw (empty, bad)
      | inr (inr bad) ↦ rw (empty, bad)
    ]
  ]

  -- `DeleteImage` either fails and leaves the registry as it was, or its outcome is that of one
  -- delete, of the digest that the tag had.
  pub delete_image_lem :
      (tag : String) (s : RepositoryState W M)
      → (((delete_image tag s).0 ≢ ok tt) × (((delete_image tag s).1).registry ≡ s.registry))
        ⊎ ((digest : String) × (service : M) × (get_tag_digest tag s.registry ≡ ok digest)
            × ((manifest_service s).0 ≡ ok service)
            × (((delete_image tag s).0, ((delete_image tag s).1).registry)
                ≡ d.delete service digest s.registry))
  unfolding delete_image
  delete_image_lem tag s = elim (Result-cases (get_tag_digest tag s.registry)) [
    | inl (digest, got) ↦ elim (Result-cases ((manifest_service s).0)) [
      | inl (service, m) ↦
          rw (got, m, delete_image)
            (inr
              (digest, service, refl, refl, ap (d.delete service digest) (manifest_service_lem s)))
      | inr (inl (e, bad)) ↦ rw (got, bad, delete_image) (inl ((λ x. cc), manifest_service_lem s))
      | inr (inr bad) ↦ rw (got, bad, delete_image) (inl ((λ x. cc), manifest_service_lem s))
    ]
    | inr (inl (e, bad)) ↦ rw (bad, delete_image) (inl ((λ x. cc), refl))
    | inr (inr bad) ↦ rw (bad, delete_image) (inl ((λ x. cc), refl))
  ]

  -- Looking at an image leaves the registry as it was, and an image that is returned is the one that
  -- is read from the digest of its tag.
  pub image_lem :
      (tag : String) (s : RepositoryState W M)
      → (((image tag s).1).registry ≡ s.registry)
        × ((img : RegistryImage)
            → (image tag s).0 ≡ ok img
            → (digest : String) × (service : M) × (get_tag_digest tag s.registry ≡ ok digest)
              × (read_image service digest tag s.registry ≡ ok img))
  unfolding image image_from_manifest
  image_lem tag s = elim (Result-cases (get_tag_digest tag s.registry)) [
    | inl (digest, got) ↦
        rw (got, image, image_from_manifest)
          (
            manifest_service_lem s,
            λ img made.
                let (service, m, read) = >>=-eq-ok ((manifest_service s).0) _ made in
                (
                  digest,
                  service,
                  refl,
                  subst (λ w. read_image service digest tag w ≡ ok img) (manifest_service_lem s)
                      read,
                ),
          )
    | inr (inl (e, bad)) ↦ rw (bad, image) (refl, λ img made. cc)
    | inr (inr bad) ↦ rw (bad, image) (refl, λ img made. cc)
  ]
