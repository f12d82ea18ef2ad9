-- ===== src/Registry/Walk/Invariant.antt =====
-- The invariant of the walk through a repository's images (lib/registry/repository.go).
use dim.Prelude.{
  ℕ, ◌+◌, ◌≤◌, String, ◌≡◌, refl, ap, ◌⊎◌, inl, inr, true, false, Option, none, some, List, [], ◌∷◌,
  ◌++◌, arith, length, length-append,
}
use dim.Prelude.Errors.{Result, ok}
use dim.Registry.Walk.{
  Worker, waiting, fetching, checking, sending, leaving, returned, State, start, at_work, Step,
  feed, close_ch, take_tag, end_range, fetched, failed, give_up, go_on, send_image, leave,
  close_images, receive, Reach, here, next,
}

module _ {Image : Type 0} where
  -- The sum of a measure over the workers.
  abbrev pub total : (Worker Image → ℕ) → List (Worker Image) → ℕ
  total g [] = 0
  total g (w ∷ ws) = g w + total g ws

  pub total-at_work :
      (g : Worker Image → ℕ) (before : List (Worker Image)) (w : Worker Image)
      (after : List (Worker Image))
      → total g (at_work before w after) ≡ total g before + g w + total g after
  total-at_work g [] w after = omega arith
  total-at_work g (v ∷ before) w after = omega (arith, total-at_work g before w after)

  pub moved :
      {ws : List (Worker Image)} (g : Worker Image → ℕ) (before : List (Worker Image))
      (w v : Worker Image) (after : List (Worker Image))
      → ws ≡ at_work before w after
      → total g ws + g v ≡ total g (at_work before v after) + g w
  moved g before w v after e =
      omega (arith, ap (total g) e, total-at_work g before w after, total-at_work g before v after)

  -- The workers that have not returned, and those still in their loop.
  abbrev pub is_active : Worker Image → ℕ
  is_active returned = 0
  is_active _ = 1

  abbrev pub is_working : Worker Image → ℕ
  is_working returned = 0
  is_working leaving = 0
  is_working _ = 1

  abbrev pub is_busy : Worker Image → ℕ
  is_busy (fetching tag) = 1
  is_busy (checking img) = 1
  is_busy (sending img) = 1
  is_busy _ = 0

module _ {Image : Type 0} (image : String → Result Image) where
  -- 1 for a tag whose image cannot be fetched.
  abbrev pub fails : Result Image → ℕ
  fails (ok img) = 0
  fails _ = 1

  abbrev pub failing : List String → ℕ
  failing [] = 0
  failing (tag ∷ tags) = fails (image tag) + failing tags

  failing-append : (xs ys : List String) → failing (xs ++ ys) ≡ failing xs + failing ys
  failing-append [] ys = omega arith
  failing-append (x ∷ xs) ys = omega (arith, failing-append xs ys)

  abbrev pub holds_failing : Worker Image → ℕ
  holds_failing (fetching tag) = fails (image tag)
  holds_failing _ = 0

  -- `lost` is the number of workers that returned without `wg.Done()`.
  pub record Inv (tags : List String) (s : State Image) : Type 0 where
    pub lost : ℕ
    pub group : s.wait_group ≡ total is_active s.workers + lost
    pub failures : failing s.pending + failing s.ch + total holds_failing s.workers ≤ failing tags
    pub fine : (1 ≤ failing tags) ⊎ ((s.error ≡ none) × (lost ≡ 0))
    pub count :
        length s.received
          + length s.images
          + total is_busy s.workers
          + lost
          + length s.ch
          + length s.pending
        ≡ length tags
    pub range : (total is_working s.workers + lost ≡ 10) ⊎ ((s.ch ≡ []) × (s.ch_closed ≡ true))
    pub fed : (s.ch_closed ≡ false) ⊎ (s.pending ≡ [])
    pub waited : (s.images_closed ≡ false) ⊎ (s.wait_group ≡ 0)

  Inv-start : (tags : List String) → Inv tags (start tags)
  Inv-start tags = record {
    lost = 0;
    group = refl;
    failures = omega arith;
    fine = inr (refl, refl);
    count = omega arith;
    range = inl refl;
    fed = inl refl;
    waited = inl refl;
  }

module _ {Image : Type 0} (image : String → Result Image) (partial : String → Option Image) where
  Step-Inv :
      {tags : List String} {s t : State Image}
      → Step image partial s t
      → Inv image tags s
      → Inv image tags t
  Step-Inv {s} (feed tag rest e room) v = record {
    lost = v.lost;
    group = v.group;
    failures = omega (arith, ap (failing image) e, failing-append image s.ch (tag ∷ []));
    fine = v.fine;
    count = omega (arith, ap length e, length-append s.ch (tag ∷ []));
    range = elim v.range [
      | inl n ↦ inl n
      | inr (empty, shut) ↦ elim v.fed [ inl open_ ↦ cc | inr over ↦ cc ]
    ];
    fed = elim v.fed [ inl open_ ↦ inl open_ | inr over ↦ cc ];
    waited = v.waited;
  }
  Step-Inv (close_ch e c) v = record {
    lost = v.lost;
    group = v.group;
    failures = v.failures;
    fine = v.fine;
    count = v.count;
    range = elim v.range [ inl n ↦ inl n | inr (empty, shut) ↦ inr (empty, refl) ];
    fed = inr e;
    waited = v.waited;
  }
  Step-Inv (take_tag before after tag rest e c) v = record {
    lost = v.lost;
    group = omega (arith, moved is_active before waiting (fetching tag) after e);
    failures = omega (
      arith,
      moved (holds_failing image) before waiting (fetching tag) after e,
      ap (failing image) c,
    );
    fine = v.fine;
    count = omega (arith, moved is_busy before waiting (fetching tag) after e, ap length c);
    range = elim v.range [
      | inl n ↦ inl (omega (arith, moved is_working before waiting (fetching tag) after e))
      | inr (empty, shut) ↦ cc
    ];
    fed = v.fed;
    waited = v.waited;
  }
  Step-Inv (end_range before after e c d) v = record {
    lost = v.lost;
    group = omega (arith, moved is_active before waiting leaving after e);
    failures = omega (arith, moved (holds_failing image) before waiting leaving after e);
    fine = v.fine;
    count = omega (arith, moved is_busy before waiting leaving after e);
    range = inr (c, d);
    fed = v.fed;
    waited = v.waited;
  }
  Step-Inv (fetched before after tag img e i) v = record {
    lost = v.lost;
    group = omega (arith, moved is_active before (fetching tag) (checking (some img)) after e);
    failures =
        omega
          (arith, moved (holds_failing image) before (fetching tag) (checking (some img)) after e);
    fine = elim v.fine [ inl some_ ↦ inl some_ | inr (clean, all_) ↦ inr (refl, all_) ];
    count = omega (arith, moved is_busy before (fetching tag) (checking (some img)) after e);
    range = elim v.range [
      | inl n ↦
          inl (omega (arith, moved is_working before (fetching tag) (checking (some img)) after e))
      | inr r ↦ inr r
    ];
    fed = v.fed;
    waited = v.waited;
  }
  Step-Inv (failed before after tag x e i) v = record {
    lost = v.lost;
    group = omega (arith, moved is_active before (fetching tag) (checking (partial tag)) after e);
    failures = omega (
      arith,
      moved (holds_failing image) before (fetching tag) (checking (partial tag)) after e,
      ap (fails image) i,
    );
    fine = inl (
        omega (
          arith,
          v.failures,
          moved (holds_failing image) before (fetching tag) (checking (partial tag)) after e,
          ap (fails image) i,
        ));
    count = omega (arith, moved is_busy before (fetching tag) (checking (partial tag)) after e);
    range = elim v.range [
      | inl n ↦
          inl
            (omega (arith, moved is_working before (fetching tag) (checking (partial tag)) after e))
      | inr r ↦ inr r
    ];
    fed = v.fed;
    waited = v.waited;
  }
  Step-Inv (give_up before after img x e i) v = record {
    lost = v.lost + 1;
    group = omega (arith, moved is_active before (checking img) returned after e);
    failures = omega (arith, moved (holds_failing image) before (checking img) returned after e);
    fine = elim v.fine [ inl some_ ↦ inl some_ | inr (clean, all_) ↦ cc ];
    count = omega (arith, moved is_busy before (checking img) returned after e);
    range = elim v.range [
      | inl n ↦ inl (omega (arith, moved is_working before (checking img) returned after e))
      | inr r ↦ inr r
    ];
    fed = v.fed;
    waited = v.waited;
  }
  Step-Inv (go_on before after img e i) v = record {
    lost = v.lost;
    group = omega (arith, moved is_active before (checking img) (sending img) after e);
    failures =
        omega (arith, moved (holds_failing image) before (checking img) (sending img) after e);
    fine = v.fine;
    count = omega (arith, moved is_busy before (checking img) (sending img) after e);
    range = elim v.range [
      | inl n ↦ inl (omega (arith, moved is_working before (checking img) (sending img) after e))
      | inr r ↦ inr r
    ];
    fed = v.fed;
    waited = v.waited;
  }
  Step-Inv {s} (send_image before after img e room) v = record {
    lost = v.lost;
    group = omega (arith, moved is_active before (sending img) waiting after e);
    failures = omega (arith, moved (holds_failing image) before (sending img) waiting after e);
    fine = v.fine;
    count = omega (
      arith,
      moved is_busy before (sending img) waiting after e,
      length-append s.images (img ∷ []),
    );
    range = elim v.range [
      | inl n ↦ inl (omega (arith, moved is_working before (sending img) waiting after e))
      | inr r ↦ inr r
    ];
    fed = v.fed;
    waited = v.waited;
  }
  Step-Inv (leave before after e) v = record {
    lost = v.lost;
    group = omega (arith, moved is_active before leaving returned after e);
    failures = omega (arith, moved (holds_failing image) before leaving returned after e);
    fine = v.fine;
    count = omega (arith, moved is_busy before leaving returned after e);
    range = elim v.range [
      | inl n ↦ inl (omega (arith, moved is_working before leaving returned after e))
      | inr r ↦ inr r
    ];
    fed = v.fed;
    waited = elim v.waited [ inl open_ ↦ inl open_ | inr zero_ ↦ inr (omega arith) ];
  }
  Step-Inv (close_images c z o) v = record {
    lost = v.lost;
    group = v.group;
    failures = v.failures;
    fine = v.fine;
    count = v.count;
    range = v.range;
    fed = v.fed;
    waited = inr z;
  }
  Step-Inv {s} (receive img rest e) v = record {
    lost = v.lost;
    group = v.group;
    failures = v.failures;
    fine = v.fine;
    count = omega (arith, ap length e, length-append s.received (img ∷ []));
    range = v.range;
    fed = v.fed;
    waited = v.waited;
  }

  pub Reach-Inv :
      {tags : List String} {s : State Image} → Reach image partial tags s → Inv image tags s
  Reach-Inv {tags} here = Inv-start image tags
  Reach-Inv (next r st) = Step-Inv st (Reach-Inv r)
