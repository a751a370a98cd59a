-- ===== src/Control/Shapes.antt =====
-- The frames that the loop operators and the map family of src/builtins/sli_control.cpp and
-- src/builtins/sli_array_module.cpp put on the execution stack, slot by slot.
use sli.Prelude.{suc, ◌≡◌, refl, some, List, [], ◌∷◌, length}
use sli.Stack.Token.{SliTypeid, Token}
use sli.Control.Unwind.{frame_size}

-- The slots below the marker of a frame, from the top to the mark, by the type of the marker.
pub data IsFrame : SliTypeid → List Token → Type 0 where
  loop_frame :
      (position proc mark : Token) → IsFrame SliTypeid.ilooptype (position ∷ proc ∷ mark ∷ [])
  repeat_frame :
      (position proc count mark : Token)
      → IsFrame SliTypeid.irepeattype (position ∷ proc ∷ count ∷ mark ∷ [])
  for_frame :
      (position proc counter limit increment mark : Token)
      → IsFrame SliTypeid.ifortype (position ∷ proc ∷ counter ∷ limit ∷ increment ∷ mark ∷ [])
  forall_frame :
      (position proc index object mark : Token)
      → IsFrame SliTypeid.iforalltype (position ∷ proc ∷ index ∷ object ∷ mark ∷ [])
  forall_string_frame :
      (position proc index object mark : Token)
      → IsFrame SliTypeid.iforallstringtype (position ∷ proc ∷ index ∷ object ∷ mark ∷ [])
  forallindexed_frame :
      (position proc count limit object mark : Token)
      → IsFrame SliTypeid.iforallindexedarraytype
          (position ∷ proc ∷ count ∷ limit ∷ object ∷ mark ∷ [])
  forallindexed_string_frame :
      (position proc count limit object mark : Token)
      → IsFrame SliTypeid.iforallindexedstringtype
          (position ∷ proc ∷ count ∷ limit ∷ object ∷ mark ∷ [])
  map_frame :
      (position proc index target load mark : Token)
      → IsFrame SliTypeid.imaptype (position ∷ proc ∷ index ∷ target ∷ load ∷ mark ∷ [])
  mapindexed_frame :
      (position proc index target load mark : Token)
      → IsFrame SliTypeid.imapindexedtype (position ∷ proc ∷ index ∷ target ∷ load ∷ mark ∷ [])
  mapthread_frame :
      (position proc index target sources load mark : Token)
      → IsFrame SliTypeid.imapthreadtype
          (position ∷ proc ∷ index ∷ target ∷ sources ∷ load ∷ mark ∷ [])

pub frame_size-IsFrame :
    (t : SliTypeid) (f : List Token) → IsFrame t f → frame_size t ≡ some (suc (length f))
unfolding frame_size
frame_size-IsFrame _ _ (IsFrame.loop_frame _ _ _) = refl
frame_size-IsFrame _ _ (IsFrame.repeat_frame _ _ _ _) = refl
frame_size-IsFrame _ _ (IsFrame.for_frame _ _ _ _ _ _) = refl
frame_size-IsFrame _ _ (IsFrame.forall_frame _ _ _ _ _) = refl
frame_size-IsFrame _ _ (IsFrame.forall_string_frame _ _ _ _ _) = refl
frame_size-IsFrame _ _ (IsFrame.forallindexed_frame _ _ _ _ _ _) = refl
frame_size-IsFrame _ _ (IsFrame.forallindexed_string_frame _ _ _ _ _ _) = refl
frame_size-IsFrame _ _ (IsFrame.map_frame _ _ _ _ _ _) = refl
frame_size-IsFrame _ _ (IsFrame.mapindexed_frame _ _ _ _ _ _) = refl
frame_size-IsFrame _ _ (IsFrame.mapthread_frame _ _ _ _ _ _ _) = refl
