-- ===== src/Screen/Frame.antt =====
-- The memory outside of the video buffer.
use drewos.Base.{ℕ, ◌<◌, ◌≡◌, ◌∙◌, refl, false}
use drewos.Memory.Copy.{within}
use drewos.Screen.{Screen, ncol, video_memory, write_char}
use drewos.Screen.Palette.{Colour}
use drewos.Screen.Write.{write_char-outside}

-- From a column of the screen, no byte outside of the video buffer changes, and the column is one of
-- the screen again.
pub record KeepsMemory (s s' : Screen) : Type 0 where
  pub keep :
      s.x < ncol
      → ((q : ℕ) → within video_memory 4000 q ≡ false → s'.mem q ≡ s.mem q) × (s'.x < ncol)

pub KeepsMemory-refl : (s : Screen) → KeepsMemory s s
KeepsMemory-refl s = record { keep = λ h. (λ q _. refl, h) }

pub KeepsMemory-trans : {s t u : Screen} → KeepsMemory s t → KeepsMemory t u → KeepsMemory s u
KeepsMemory-trans p q = record {
  keep = λ h.
      let (same, on) = p.keep h in
      let (same', on') = q.keep on in (λ a out. same' a out ∙ same a out, on');
}

pub write_char-KeepsMemory :
    (c : ℕ) (fg bg : Colour) (s : Screen) → KeepsMemory s (write_char c fg bg s)
write_char-KeepsMemory c fg bg s = record {
  keep = λ h. (
    λ q out. (write_char-outside c fg bg s q h out).0,
    (write_char-outside c fg bg s 0 h refl).1,
  );
}
