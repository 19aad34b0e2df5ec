-- ===== src/Server/Accounts.antt =====
-- The server as a register of transactions: over any sequence of calls it makes as many new entries as it
-- answers transactions, or more where an answer was lost.
use api_extension.Prelude.{
  ℕ, zero, suc, ◌+◌, ◌≤◌, ◌≡◌, ◌≢◌, ◌⊎◌, refl, sym, ◌∙◌, inl, inr, Option, none, some, List, [],
  ◌∷◌, arith,
}
use api_extension.Text.{Text}
use api_extension.Http.{Reply, error, content, silent, Request}
use api_extension.Kube.{Backend, Codec, RestClient}
use api_extension.Kube.Store.{Store, Frame}
use api_extension.Query.Quiet
use api_extension.Count.Quiet.{list_handler-R}
use api_extension.Decision.Handler.{maker_request}
use api_extension.Decision.Quiet as Decisions
use api_extension.Transaction.{transaction_storage_key}
use api_extension.Transaction.Ledger.{Step, IsEntry, ledger, create_handler-Step}
use api_extension.Server.History.{query_key-ne-transaction_storage_key}
use api_extension.Server.Serving.{Call, transaction, query, decision, count, serve, serve_all}

-- What is recorded for each namespace and name.
abbrev pub Register : Type 0
Register = Text → Text → Option Text

abbrev pub IsSame : Register → Register → Type 0
IsSame s s' = (namespace name : Text) → s' namespace name ≡ s namespace name

-- One transaction is entered where none was, and the others stay.
pub record IsEnrolled (s s' : Register) : Type 0 where
  pub namespace : Text
  pub name : Text
  pub payload : Text
  pub absent : s namespace name ≡ none
  pub entered : s' namespace name ≡ some payload
  pub others :
      (space other : Text)
      → transaction_storage_key space other ≢ transaction_storage_key namespace name
      → s' space other ≡ s space other

-- A run of the register with a number of entries.
pub data Run : ℕ → Register → Register → Type 0 where
  idle : {s s' : Register} → IsSame s s' → Run zero s s'
  enter : {n : ℕ} {s t u : Register} → IsEnrolled s t → Run n t u → Run (suc n) s u

Run-before : (n : ℕ) (s t u : Register) → IsSame s t → Run n t u → Run n s u
Run-before _ s t u h (idle k) = idle (λ ns m. k ns m ∙ h ns m)
Run-before _ s t u h (enter e r) =
    enter
      (record {
        namespace = e.namespace;
        name = e.name;
        payload = e.payload;
        absent = sym (h e.namespace e.name) ∙ e.absent;
        entered = e.entered;
        others = λ space other d. e.others space other d ∙ h space other;
      })
      r

-- 1 for an answer, 0 for an error.
unfoldable pub answers_of : Call → Reply → ℕ
answers_of (transaction namespace name r) (error message status) = 0
answers_of (transaction namespace name r) (content status kind body) = 1
answers_of (transaction namespace name r) silent = 1
answers_of (query namespace name r) reply = 0
answers_of (decision namespace name r) reply = 0
answers_of (count namespace r) reply = 0

unfoldable pub requests_of : Call → ℕ
requests_of (transaction namespace name r) = 1
requests_of (query namespace name r) = 0
requests_of (decision namespace name r) = 0
requests_of (count namespace r) = 0

-- How many transactions are requested.
unfoldable pub requested : List Call → ℕ
requested [] = 0
requested (call ∷ calls) = requests_of call + requested calls

module _ {World : Type 0} (env : Backend World) (codec : Codec) (client : RestClient)
    (core : List Text) (url : Text) where
  -- How many transactions are answered: the ones whose reply is no error.
  unfoldable pub answered : List Call → World → ℕ
  unfolding answers_of
  answered [] w = 0
  answered (call ∷ calls) w =
      answers_of call (serve env codec client core url call w).0
      + answered calls (serve env codec client core url call w).1

module _ {World : Type 0} {env : Backend World} (store : Store env) where
  -- The transactions of a world.
  abbrev pub register : World → Register
  register w namespace name = store.value (transaction_storage_key namespace name) w

  abbrev register_frame : Frame env
  register_frame = record {
    R = λ u w. IsSame (register u) (register w);
    R_refl = λ w ns n. refl;
    R_trans = λ t u w p q ns n. q ns n ∙ p ns n;
    rest_mapping_R = λ gvk w ns n. store.rest_mapping_keeps gvk w _;
    reset_R = λ w ns n. store.reset_keeps w _;
    review_R = λ spec w ns n. store.review_keeps spec w _;
    now_R = λ w ns n. store.now_keeps w _;
    get_R = λ k opts w ns n. store.get_keeps k opts w _;
    dry_run_R = λ r w d ns n. store.dry_run_keeps r w _ d;
  }

  entry-IsEnrolled :
      (w w' : World)
      → IsEntry (ledger store w) (ledger store w')
      → IsEnrolled (register w) (register w')
  entry-IsEnrolled w w' e = record {
    namespace = e.namespace;
    name = e.name;
    payload = e.payload;
    absent = e.absent;
    entered = e.entered;
    others = λ space other d. e.others (transaction_storage_key space other) d;
  }

  -- What one call does to the register.
  abbrev Outcome : Call → Reply → World → World → Type 0
  Outcome call reply w w' =
      (IsSame (register w) (register w') × (answers_of call reply ≡ 0))
      ⊎ (IsEnrolled (register w) (register w') × (requests_of call ≡ 1))

  Step-Outcome :
      (namespace name : Text) (r : Request) (reply : Reply) (w w' : World)
      → Step reply (ledger store w) (ledger store w')
      → Outcome (transaction namespace name r) reply w w'
  unfolding answers_of requests_of
  Step-Outcome namespace name r (error message status) w w' (inl same) = inl (λ ns n. same _, refl)
  Step-Outcome namespace name r (error message status) w w' (inr (late, e)) =
      inr (entry-IsEnrolled w w' e, refl)
  Step-Outcome namespace name r (content status kind body) w w' e =
      inr (entry-IsEnrolled w w' e, refl)
  Step-Outcome namespace name r silent w w' e = inr (entry-IsEnrolled w w' e, refl)

  answers-le-requests : (call : Call) (reply : Reply) → answers_of call reply ≤ requests_of call
  unfolding answers_of requests_of
  answers-le-requests call reply = ground arith

  module _
      (maker_keeps : (endpoint body : Text) (w : World) (k : Text)
        → store.value k (env.http_do (maker_request endpoint body) w).1 ≡ store.value k w)
      (codec : Codec) (client : RestClient) (core : List Text) (url : Text) where
    serve-Outcome :
        (call : Call) (w : World)
        → Outcome call
            (serve env codec client core url call w).0
            w
            (serve env codec client core url call w).1
    unfolding serve answers_of
    serve-Outcome (transaction ns n r) w =
        Step-Outcome ns n r _ w _ (create_handler-Step store codec client core ns n r w)
    serve-Outcome (query ns n r) w = inl (
      Quiet.create_handler-R register_frame codec ns n
          (λ body u space name.
            store.put_other _ body u _ (query_key-ne-transaction_storage_key n space name))
          r w,
      refl,
    )
    serve-Outcome (decision ns n r) w = inl (
      Decisions.create_handler-R register_frame codec
          (λ endpoint body u space name. maker_keeps endpoint body u _) url ns n r w,
      refl,
    )
    serve-Outcome (count ns r) w = inl (list_handler-R register_frame codec core ns r w, refl)

    -- Over any sequence of calls, the register of the transactions changes by new entries only, each under a
    -- name that was free. There are at least as many as transactions that were answered with no error,
    -- and at most as many as were requested.
    pub serve_all-Run :
        (calls : List Call) (w : World)
        → (n : ℕ) × Run n (register w) (register (serve_all env codec client core url calls w))
          × (answered env codec client core url calls w ≤ n)
          × (n ≤ requested calls)
    unfolding serve_all answered requested
    serve_all-Run [] w = (0, idle (λ ns n. refl), omega arith, omega arith)
    serve_all-Run (call ∷ calls) w =
        let (reply, w') = serve env codec client core url call w in
        let (n, run, low, high) = serve_all-Run calls w' in
        elim (serve-Outcome call w) [
          | inl (same, none_answered) ↦ (n, Run-before n _ _ _ same run, omega arith, omega arith)
          | inr (entry, one) ↦
              (suc n, enter entry run, omega (arith, answers-le-requests call reply), omega arith)
        ]
