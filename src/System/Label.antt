-- ===== src/System/Label.antt =====
-- `AddLabel` of lib/dim.go on the `DockerClient` of wrapper/dockerClient/dockerClient.go.
use dim.Prelude.{String, ◌≡◌, sym, ap, ◌∙◌, inl, inr, Bool, false, Option, some, List, arith}
use dim.Prelude.Dict.{Dict}
use dim.Prelude.Errors.{ok, err, panic, ok_injective, Result-cases}
use dim.Prelude.Exec.{Exec}
use dim.Dim.{ImageInspect, Docker, add_label, get_image_labels}
use dim.Dim.Labels.{add_label_lem, Describes}
use dim.Utils.{map_matches_all}
use dim.Wrapper.DockerClient.{
  Engine, Outside, ClientState, client, with_client, image_build, inspect, remove,
}
use dim.Wrapper.DockerClient.Build.{IsBuilt, image_build-IsBuilt}

module _ {W C : Type 0} (engine : Engine W C) (outside : Outside W) (insecure : Bool)
    (temp_name : String) (pull push : String → Exec (ClientState W C) (Unit {0})) where
  -- The client as the `Docker` of `Dim`, once it is connected: looking at an image then leaves it as it is.
  -- `pull` and `push` ask for logins, in loops that have no bound.
  abbrev pub docker_client : Docker (ClientState W C)
  docker_client = record {
    image_build =
        λ parent labels tag. image_build engine outside insecure temp_name parent labels tag;
    pull = pull;
    inspect = λ image s. (inspect engine outside insecure image s).0;
    remove = remove engine outside insecure;
    push = push;
  }

  module _ (cli : C) (s : ClientState W C) (held : s.c ≡ some cli) where
    get_labels :
        (image : String) (actual : Option (Dict String))
        → get_image_labels docker_client image s ≡ ok actual
        → (i : ImageInspect) × (engine.image_inspect cli image s.daemon ≡ ok i)
          × (i.config_labels ≡ actual)
    unfolding get_image_labels inspect with_client client
    get_labels image actual h = elim (Result-cases (engine.image_inspect cli image s.daemon)) [
      | inl (i, e) ↦
          let read : get_image_labels docker_client image s ≡ ok i.config_labels =
            ground (arith, held, e) in
          (i, e, ok_injective (sym read ∙ h))
      | inr (inl (x, e)) ↦
          let failed : get_image_labels docker_client image s ≡ err x = ground (arith, held, e) in
          absurd (cc (sym failed ∙ h))
      | inr (inr e) ↦
          let failed : get_image_labels docker_client image s ≡ panic = ground (arith, held, e) in
          absurd (cc (sym failed ∙ h))
    ]

    -- With a client that is connected, adding labels to an image succeeds only if they are of the form
    -- "key=value" with values, the image is known to the daemon and not all of them are set on it
    -- already; then a container of the image was created, committed with exactly these labels under
    -- the tag and asked to be removed, and nothing else was done to the daemon.
    pub add_label-IsBuilt :
        (parent tag : String) (labels : List String) (t : ClientState W C)
        → add_label docker_client parent labels tag s ≡ (ok tt, t)
        → (build : Dict String) × (i : ImageInspect) × Describes labels build
          × (engine.image_inspect cli parent s.daemon ≡ ok i)
          × (map_matches_all i.config_labels (some build) ≡ false)
          × IsBuilt engine outside insecure cli s temp_name parent tag build held t.daemon
    add_label-IsBuilt parent tag labels t h =
        elim (add_label_lem docker_client parent tag s labels) [
          | inl (r, failed, refused) ↦ absurd (refused (ap (λ p. p.0) (sym failed ∙ h)))
          | inr (build, actual, described, some_labels, got, new, built) ↦
              let (i, seen, same) = get_labels parent actual got in
              (
                build,
                i,
                described,
                seen,
                rw same new,
                image_build-IsBuilt engine outside insecure cli s temp_name parent tag build held t
                    (sym built ∙ h),
              )
        ]
