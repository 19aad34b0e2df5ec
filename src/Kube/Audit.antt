-- ===== src/Kube/Audit.antt =====
-- A backend that also notes the access reviews that it is asked for, the last one first.
use api_extension.Prelude.{List, ◌∷◌}
use api_extension.Kube.{ReviewSpec, Backend}

abbrev pub Audited : Type 0 → Type 0
Audited World = World × List ReviewSpec

abbrev pub unnoted : {World A : Type 0} → (World → A × World) → Audited World → A × Audited World
unnoted call (w, log) = ((call w).0, ((call w).1, log))

abbrev pub audited : {World : Type 0} → Backend World → Backend (Audited World)
audited env = record {
  rest_mapping = λ gvk. unnoted (env.rest_mapping gvk);
  reset = λ s. (env.reset s.0, s.1);
  review = λ spec s. ((env.review spec s.0).0, ((env.review spec s.0).1, spec ∷ s.1));
  commit = λ t. unnoted (env.commit t);
  get = λ k opts. unnoted (env.get k opts);
  put = λ k v. unnoted (env.put k v);
  http_do = λ r. unnoted (env.http_do r);
  now = unnoted env.now;
}
