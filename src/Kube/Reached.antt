-- ===== src/Kube/Reached.antt =====
-- The worlds that the calls of a handler lead to, as long as it neither commits nor puts.
use api_extension.Prelude.{◌≡◌, List}
use api_extension.Text.{Text, text}
use api_extension.Http.{ClientRequest, get}
use api_extension.Kube.{Gvk, ReviewSpec, GetOption, Backend}
use api_extension.Kube.Store.{Frame}

module _ {World : Type 0} (env : Backend World) where
  -- `Reached start w`: a sequence of calls leads from `start` to `w`.
  pub data Reached (start : World) : World → Type 0 where
    here : Reached start start
    mapped : (gvk : Gvk) (w : World) → Reached start w → Reached start (env.rest_mapping gvk w).1
    was_reset : (w : World) → Reached start w → Reached start (env.reset w)
    reviewed :
        (spec : ReviewSpec) (w : World) → Reached start w → Reached start (env.review spec w).1
    clocked : (w : World) → Reached start w → Reached start (env.now w).1
    got :
        (k : Text) (opts : List GetOption) (w : World)
        → Reached start w
        → Reached start (env.get k opts w).1
    ran_dry :
        (r : ClientRequest) (w : World)
        → get (text "dryRun") r.query ≡ text "All"
        → Reached start w
        → Reached start (env.http_do r w).1

  pub Reached-trans : (u v w : World) → Reached u v → Reached v w → Reached u w
  Reached-trans u v w p here = p
  Reached-trans u v _ p (mapped gvk w q) = mapped gvk w (Reached-trans u v w p q)
  Reached-trans u v _ p (was_reset w q) = was_reset w (Reached-trans u v w p q)
  Reached-trans u v _ p (reviewed spec w q) = reviewed spec w (Reached-trans u v w p q)
  Reached-trans u v _ p (clocked w q) = clocked w (Reached-trans u v w p q)
  Reached-trans u v _ p (got k opts w q) = got k opts w (Reached-trans u v w p q)
  Reached-trans u v _ p (ran_dry r w d q) = ran_dry r w d (Reached-trans u v w p q)

  abbrev pub reached_frame : Frame env
  reached_frame = record {
    R = Reached;
    R_refl = λ w. here;
    R_trans = Reached-trans;
    rest_mapping_R = λ gvk w. mapped gvk w here;
    reset_R = λ w. was_reset w here;
    review_R = λ spec w. reviewed spec w here;
    now_R = λ w. clocked w here;
    get_R = λ k opts w. got k opts w here;
    dry_run_R = λ r w d. ran_dry r w d here;
  }
