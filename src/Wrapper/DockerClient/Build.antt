-- ===== src/Wrapper/DockerClient/Build.antt =====
-- What a build asks of the daemon.
use dim.Wrapper.DockerClient.{committed, created}
use dim.Prelude.{String, ◌≡◌, refl, sym, ap, ◌∙◌, ◌≢◌, Bool, some}
use dim.Prelude.Dict.{Dict}
use dim.Prelude.Errors.{Result, ok, err, panic}
use dim.Wrapper.DockerClient.{
  Engine, Outside, ClientState, client, with_client, image_build, remove_temp, change_labels,
}

module _ {W C : Type 0} (engine : Engine W C) (outside : Outside W) (insecure : Bool) (cli : C)
    (s : ClientState W C) (temp_name parent tag : String) (labels : Dict String)
    (held : s.c ≡ some cli) where
  remove_temp_ok :
      (r : Result (Unit {0})) (t : ClientState W C)
      → r ≢ panic
      → remove_temp engine outside insecure (r, t) ≡ (ok tt, t)
  remove_temp_ok (ok done) t safe = refl
  remove_temp_ok (err e) t safe = refl
  remove_temp_ok panic t safe = absurd (safe refl)

  -- A container of the parent that is created and committed with the labels under the tag is removed,
  -- and the build succeeds, even if the removal returns an error.
  pub image_build-removes :
      (id : String) (w1 w2 w3 : W) (r : Result (Unit {0}))
      → engine.container_create cli parent temp_name s.daemon ≡ (ok id, w1)
      → engine.container_commit cli id (change_labels labels) tag w1 ≡ (ok tt, w2)
      → engine.container_remove cli id w2 ≡ (r, w3)
      → r ≢ panic
      → image_build engine outside insecure temp_name parent labels tag s
        ≡ (ok tt, record s { daemon = w3 })
  unfolding image_build with_client client
  image_build-removes id w1 w2 w3 r c d f safe =
      rw (held, c, d, f) (remove_temp_ok r (record s { daemon = w3; c = some cli }) safe)

  -- What a daemon does in a build that succeeds and ends with it in the state `end`.
  abbrev pub IsBuilt : W → Type 0
  IsBuilt end =
      (id : String) × (w1 : W) × (w2 : W) × (engine.container_create cli parent temp_name s.daemon
        ≡ (ok id, w1))
      × (engine.container_commit cli id (change_labels labels) tag w1 ≡ (ok tt, w2))
      × ((engine.container_remove cli id w2).1 ≡ end)

  panicked :
      (t u : ClientState W C) → ◌≢◌ {A = Result (Unit {0}) × ClientState W C} (panic, t) (ok tt, u)
  panicked t u e = cc

  remove_temp_state :
      (r : Result (Unit {0})) (t : ClientState W C)
      → (remove_temp engine outside insecure (r, t)).1 ≡ t
  remove_temp_state (ok done) t = refl
  remove_temp_state (err e) t = refl
  remove_temp_state panic t = refl

  committed_inv :
      (id : String) (r : Result (Unit {0})) (u t : ClientState W C)
      → committed engine outside insecure cli id r u ≡ (ok tt, t)
      → (r ≡ ok tt) × ((engine.container_remove cli id u.daemon).1 ≡ t.daemon)
  committed_inv id (ok done) u t e =
      let (r, w) = engine.container_remove cli id u.daemon in
      (
        refl,
        sym (ap (λ x. x.daemon) (remove_temp_state r (record u { daemon = w })))
            ∙ ap (λ p. (p.1).daemon) e,
      )
  committed_inv id (err x) u t e = absurd (panicked u t e)
  committed_inv id panic u t e = absurd (panicked u t e)

  created_inv :
      (id : Result String) (u t : ClientState W C)
      → created engine outside insecure cli labels tag id u ≡ (ok tt, t)
      → (i : String) × (w2 : W) × (id ≡ ok i)
        × (engine.container_commit cli i (change_labels labels) tag u.daemon ≡ (ok tt, w2))
        × ((engine.container_remove cli i w2).1 ≡ t.daemon)
  created_inv (ok i) u t e =
      let (r, w2) = engine.container_commit cli i (change_labels labels) tag u.daemon in
      let (fine, end) = committed_inv i r (record u { daemon = w2 }) t e in
      (i, w2, refl, rw fine refl, end)
  created_inv (err x) u t e = absurd (panicked u t e)
  created_inv panic u t e = absurd (panicked u t e)

  -- With a client that is connected, a build succeeds only by creating a container of the parent,
  -- committing it with the labels under the tag, and asking for its removal, and does nothing else
  -- to the daemon.
  pub image_build-IsBuilt :
      (t : ClientState W C)
      → image_build engine outside insecure temp_name parent labels tag s ≡ (ok tt, t)
      → IsBuilt t.daemon
  unfolding image_build with_client client
  image_build-IsBuilt t e =
      let (i, w1) = engine.container_create cli parent temp_name s.daemon in
      let start : image_build engine outside insecure temp_name parent labels tag s
          ≡ created engine outside insecure cli labels tag i
              (record s { daemon = w1; c = some cli }) =
        rw held refl in
      let (id, w2, c, d, f) =
        created_inv i (record s { daemon = w1; c = some cli }) t (sym start ∙ e) in
      (id, w1, w2, rw c refl, d, f)
