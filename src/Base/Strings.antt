-- ===== src/Base/Strings.antt =====
-- Texts as keys.
use Prim.Native.String.{String, compare}
use Prim.Native.Nat.{Ordering}
use mathlib.Core.Bool.{Bool, true, false}
use text.Mathlib.TextEquality.{eq_iff}
use edge_feed_spec.Base.Tests.{Eq}

abbrev pub str_eq : String → String → Bool
str_eq s t = elim (compare s t) [ Ordering.eq ↦ true | _ ↦ false ]

instance abbrev pub string_eq : Eq String
string_eq = record { beq = str_eq; beq_iff = eq_iff }
