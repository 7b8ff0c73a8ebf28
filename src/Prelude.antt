-- ===== src/Prelude.antt =====
-- The names that the modules share: the libraries', passed on, and those of its children.
pub mod Tests
pub mod Lists
pub mod Texts
pub mod Chunks
pub mod Below
pub use Tests.*
pub use Lists.*
pub use Texts.{
  Text, codes, text_eq_iff, text_eq_refl, text_eq-swap, split-piece, split-none, split-piece_of_one,
  split-none_of_one,
}
unfoldable pub use Texts.{text_eq, starts_with, split, text_lt}
pub use Prim.Native.Nat.{ℕ, zero, suc, ◌+◌, ◌-◌, ◌*◌, ◌/◌, ◌%◌, ◌^◌, ◌≤◌, ◌<◌}
pub use mathlib.Core.Path.{◌≡◌, refl, sym, ap, subst, ◌∙◌}
pub use mathlib.Core.Logic.{◌≢◌, ◌↔◌, ◌⊎◌, inl, inr}
pub use mathlib.Core.Bool.{Bool, true, false, not, ◌&&◌, ◌||◌}
pub use mathlib.Core.Option.{Option, none, some}
pub use mathlib.Core.List.{List, [], ◌∷◌, ◌++◌, map}
pub use native.Mathlib.Omega.{arith}
pub use Chunks.{
  concat, concat-chunks, chunks-le, mem_text, mem_text-unique, take-map, concat-take-drop,
}
unfoldable pub use Chunks.{join, unique, chunks}
pub use Below.{down, map-down, every-down}
