-- ===== src/Kube/Interference.antt =====
-- Other clients of the store, which act between the calls of a handler.
use api_extension.Prelude.{◌≡◌, ◌∙◌, some, List, [], ◌∷◌, All}
use api_extension.Text.{Text}
use api_extension.Kube.{Backend}
use api_extension.Kube.Store.{Frame, Store}

-- A world, and what the others do to it in turn.
abbrev pub Shared : Type 0 → Type 0
Shared World = World × List (World → World)

module _ {World : Type 0} where
  -- The others take their next step, if one is left.
  unfoldable pub interrupt : Shared World → Shared World
  interrupt (w, []) = (w, [])
  interrupt (w, step ∷ steps) = (step w, steps)

  -- A call, just after a step of the others.
  abbrev pub interrupted : {A : Type 0} → (World → A × World) → Shared World → A × Shared World
  interrupted call s = ((call (interrupt s).0).0, ((call (interrupt s).0).1, (interrupt s).1))

-- Before each call of a handler, the others take a step.
abbrev pub shared : {World : Type 0} → Backend World → Backend (Shared World)
shared env = record {
  rest_mapping = λ gvk. interrupted (env.rest_mapping gvk);
  reset = λ s. (env.reset (interrupt s).0, (interrupt s).1);
  review = λ spec. interrupted (env.review spec);
  commit = λ t. interrupted (env.commit t);
  get = λ k opts. interrupted (env.get k opts);
  put = λ k v. interrupted (env.put k v);
  http_do = λ r. interrupted (env.http_do r);
  now = interrupted env.now;
}

module _ {World : Type 0} {env : Backend World} (store : Store env) (key : Text) where
  -- What is stored under the key stays.
  abbrev pub Keeps : (World → World) → Type 0
  Keeps step =
      (w : World) (v : Text) → store.value key w ≡ some v → store.value key (step w) ≡ some v

  abbrev pub Held : Shared World → Shared World → Type 0
  Held s s' =
      All Keeps s.1
      → All Keeps s'.1 × ((v : Text) → store.value key s.0 ≡ some v → store.value key s'.0 ≡ some v)

  pub interrupt-Held : (s : Shared World) → Held s (interrupt s)
  unfolding interrupt
  interrupt-Held (w, []) k = (k, λ v h. h)
  interrupt-Held (w, step ∷ steps) (k, ks) = (ks, k w)

  -- A call that keeps what is stored does so among others who do.
  pub interrupted-Held :
      (call : World → World)
      → Keeps call
      → (s : Shared World) → Held s (call (interrupt s).0, (interrupt s).1)
  interrupted-Held call k s ks =
      let (rest, held) = interrupt-Held s ks in (rest, λ v h. k _ v (held v h))

  abbrev pub held_frame : Frame (shared env)
  held_frame = record {
    R = Held;
    R_refl = λ s k. (k, λ v h. h);
    R_trans = λ s t u p q k. ((q (p k).0).0, λ v h. (q (p k).0).1 v ((p k).1 v h));
    rest_mapping_R = λ gvk.
        interrupted-Held (λ w. (env.rest_mapping gvk w).1)
          (λ w v h. store.rest_mapping_keeps gvk w key ∙ h);
    reset_R = interrupted-Held env.reset (λ w v h. store.reset_keeps w key ∙ h);
    review_R = λ spec.
        interrupted-Held (λ w. (env.review spec w).1) (λ w v h. store.review_keeps spec w key ∙ h);
    now_R = interrupted-Held (λ w. (env.now w).1) (λ w v h. store.now_keeps w key ∙ h);
    get_R = λ k opts.
        interrupted-Held (λ w. (env.get k opts w).1) (λ w v h. store.get_keeps k opts w key ∙ h);
    dry_run_R = λ r s d.
        interrupted-Held (λ w. (env.http_do r w).1) (λ w v h. store.dry_run_keeps r w key d ∙ h) s;
  }
