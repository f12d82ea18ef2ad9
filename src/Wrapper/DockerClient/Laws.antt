-- ===== src/Wrapper/DockerClient/Laws.antt =====
-- A pull and a push on docker hub.
use dim.Prelude.{ℕ, String, ◌≡◌, Bool, true, some, ◌==◌}
use dim.Prelude.Errors.{docker_hub_authentication_not_supported, ok, err}
use dim.Registry.Client.{Named}
use dim.Wrapper.DockerClient.{
  Engine, Outside, ClientState, client, authenticate, pull, push, printed, on_daemon,
}

module _ {W C : Type 0} (engine : Engine W C) (outside : Outside W) (insecure : Bool)
    (fuel : ℕ) where
  -- On docker hub, a pull is asked of the daemon as nobody and its statuses are printed, and a push is an
  -- error that leaves everything as it was.
  pub docker_hub_lem :
      (image : String) (n : Named) (cli : C) (s : ClientState W C)
      → s.c ≡ some cli
      → outside.parse_named image ≡ ok n
      → (n.hostname == outside.default_hostname) ≡ true
      → (pull engine outside insecure fuel image s
          ≡ some (
              printed engine outside insecure
                (λ lines. lines)
                (on_daemon engine outside insecure (engine.image_pull cli image "") s)))
        × (push engine outside insecure fuel image s
            ≡ some (err docker_hub_authentication_not_supported, s))
  unfolding pull push client authenticate
  docker_hub_lem image n cli s held parsed hub = (rw (held, parsed, hub), rw (held, parsed, hub))
