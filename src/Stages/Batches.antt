-- ===== src/Stages/Batches.antt =====
-- Each line of a batch leaves the fast pools once.
use mathlib.Core.List.Perm
use mathlib.Core.List.{Perm, map-append, perm_middle}
use instant_ai_data_workflow.Prelude.{
  ◌≡◌, refl, sym, ap, subst, ◌∙◌, Option, List, [], ◌∷◌, ◌++◌, append_assoc, String, map, arith,
  string_eq,
}
use instant_ai_data_workflow.Stages.{Values}
use instant_ai_data_workflow.Stages.Engine.{Gates, Item}
use instant_ai_data_workflow.Stages.Pools.{
  Worker, Left, terminal, survivor, terminals, survivors, each, preprocess_item, filter_item,
  stage0_item, with_work_dir, first_work_dir, process_fast_chain_batch,
}
use instant_ai_data_workflow.Stages.Conserved.{
  Place, result_place, payload_place, item_place, left_place, preprocess_item-place,
  filter_item-place, stage0_item-place,
}

pub each_keeps :
    {A B S : Type 0} (step : A → S → B × S) (f : A → Place) (g : B → Place)
    → ((a : A) (s : S) → g (step a s).0 ≡ f a)
    → (as' : List A) (s : S) → map g (each step as' s).0 ≡ map f as'
unfolding each
each_keeps step f g keeps [] s = refl
each_keeps step f g keeps (a ∷ as') s =
    ap (λ x. x ∷ map g (each step as' (step a s).1).0) (keeps a s)
    ∙ ap (λ xs. f a ∷ xs) (each_keeps step f g keeps as' (step a s).1)

module _ {V : Type 0} where
  abbrev done : List (Left V) → List Place
  done ls = map result_place (terminals ls)

  abbrev left : List (Left V) → List Place
  left ls = map payload_place (survivors ls)

  done-left : (ls : List (Left V)) → Perm (done ls ++ left ls) (map left_place ls)
  unfolding terminals survivors
  done-left [] = Perm.rfl
  done-left (terminal r ∷ ls) = Perm.cons (result_place r) (done-left ls)
  done-left (survivor p ∷ ls) =
      Perm.trans (perm_middle (done ls) (left ls)) (Perm.cons (payload_place p) (done-left ls))

  with_work_dir-place :
      (wd : Option String) (item : Item V) → item_place (with_work_dir wd item) ≡ item_place item
  unfolding with_work_dir
  with_work_dir-place wd item = ground arith

  pub with_work_dirs-place :
      (wd : Option String) (items : List (Item V))
      → map item_place (map (with_work_dir wd) items) ≡ map item_place items
  with_work_dirs-place wd [] = refl
  with_work_dirs-place wd (i ∷ items) =
      ap (λ x. x ∷ map item_place (map (with_work_dir wd) items)) (with_work_dir-place wd i)
      ∙ ap (λ xs. item_place i ∷ xs) (with_work_dirs-place wd items)

-- Three pools one behind the other.
three_pools :
    (T₁ T₂ T₃ S₃ : List Place) {S₁ S₂ all : List Place}
    → Perm (T₁ ++ S₁) all
    → Perm (T₂ ++ S₂) S₁
    → Perm (T₃ ++ S₃) S₂
    → Perm ((T₁ ++ (T₂ ++ T₃)) ++ S₃) all
three_pools T₁ T₂ T₃ S₃ {all = all} p q r =
    subst (λ xs. Perm xs all)
      (ap (λ xs. T₁ ++ xs) (sym (append_assoc T₂ T₃ S₃)) ∙ sym (append_assoc T₁ (T₂ ++ T₃) S₃))
      (Perm.trans (Perm.append_left T₁ (Perm.trans (Perm.append_left T₂ r) q)) p)

module _ {V W : Type 0} (values : Values V) (gates : Gates V W) where
  -- A fast worker gives each line of its batch once: as a finished line or as a survivor, with the
  -- number, the source and the line that it had.
  pub process_fast_chain_batch-perm :
      (batch : List (Item V)) (w : Worker W)
      → Perm
          (map result_place (process_fast_chain_batch values gates batch w).0.0
            ++ map payload_place (process_fast_chain_batch values gates batch w).0.1)
          (map item_place batch)
  unfolding process_fast_chain_batch
  process_fast_chain_batch-perm batch w =
      let wd = first_work_dir batch in
      let rows = map (with_work_dir wd) batch in
      let (pre, w₁) = each (preprocess_item values gates) rows w in
      let (filt, w₂) = each (filter_item values gates) (survivors pre) w₁ in
      let (s0, w₃) = each (stage0_item values gates) (survivors filt) w₂ in
      let p₁ : map left_place pre ≡ map item_place batch =
        each_keeps (preprocess_item values gates) item_place left_place
          (preprocess_item-place values gates) rows w
        ∙ with_work_dirs-place wd batch in
      let p₂ : map left_place filt ≡ left pre =
        each_keeps (filter_item values gates) payload_place left_place
          (filter_item-place values gates) (survivors pre) w₁ in
      let p₃ : map left_place s0 ≡ left filt =
        each_keeps (stage0_item values gates) payload_place left_place
          (stage0_item-place values gates) (survivors filt) w₂ in
      subst (λ xs. Perm (xs ++ left s0) (map item_place batch))
        (sym (
          map-append result_place (terminals pre) (terminals filt ++ terminals s0)
          ∙ ap (λ xs. done pre ++ xs) (map-append result_place (terminals filt) (terminals s0))))
        (three_pools (done pre) (done filt) (done s0) (left s0)
          (subst (Perm (done pre ++ left pre)) p₁ (done-left pre))
          (subst (Perm (done filt ++ left filt)) p₂ (done-left filt))
          (subst (Perm (done s0 ++ left s0)) p₃ (done-left s0)))
