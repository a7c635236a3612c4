-- ===== src/Stages/Intel.antt =====
-- What the preview finds is lost between the pools of a heavy worker.
use instant_ai_data_workflow.Prelude.{◌≡◌, refl, Option, none, some, String, arith}
use instant_ai_data_workflow.Stages.{Context, Values, mark}
use instant_ai_data_workflow.Stages.Cleaning.{Result, Heavy, processed_result}
use instant_ai_data_workflow.Stages.Keeps.{Kept}

-- The three fields of a preview.
abbrev pub Intel : Type 0 → Type 0
Intel V = Option V × Option V × Option V

module _ {V : Type 0} where
  abbrev context_intel : Context V → Intel V
  context_intel ctx = (ctx.acim_intel, ctx.acim_route, ctx.lci)

  abbrev pub result_intel : Result V → Intel V
  result_intel r = elim r.body [
    | none ↦ (none, none, none)
    | some b ↦ (b.acim_intel, b.acim_route, b.lci)
  ]

  finished-intel : (ctx : Context V) → result_intel (processed_result ctx) ≡ context_intel ctx
  unfolding processed_result
  finished-intel ctx = refl

  mark-intel :
      (stage : String) (ctx : Context V) → context_intel (mark stage ctx) ≡ context_intel ctx
  unfolding mark
  mark-intel stage ctx = ground arith

module _ {V W : Type 0} (values : Values V) (heavy : Heavy V W) where
  abbrev intel : Kept V (Intel V)
  intel = record {
    of_context = context_intel;
    of_result = result_intel;
    marked = mark-intel;
    with_rejects = λ rejects ctx. refl;
    with_chunks = λ chunks ctx. refl;
    finished = finished-intel;
  }
