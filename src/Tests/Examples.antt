-- ===== src/Tests/Examples.antt =====
-- Concrete values of the parameters, for the runs and the examples.
use mathlib.Core.List.Permᴰ
use k8s_jumperless.Api.Types.{JumperlessConfigSection}
use k8s_jumperless.Base.{Option, none, some, List, [], ◌∷◌, ◌++◌, refl, Bytes, pos, length}
use k8s_jumperless.Emulator.Respond.{Terminal}
use k8s_jumperless.Emulator.Respond.Written.{IsReliable}
use k8s_jumperless.Local.Config.Order.{IsOrdering, SameSections, end, section}
use k8s_jumperless.Local.Config.{ConfigMap}
use k8s_jumperless.Proxy.Quoting.{Quoting, IsQuoting}

-- Quoting that puts one mark in front.
abbrev strip_mark : Bytes → Option Bytes
strip_mark [] = none
strip_mark (c ∷ s) = some s

abbrev pub marking : Quoting
marking = record { quote = λ s. b'"' ∷ s; unquote = strip_mark }

pub marking-IsQuoting : IsQuoting marking
marking-IsQuoting = record { unquote-quote = λ s. refl }

-- A terminal that keeps what is written to it.
abbrev pub paper : Terminal
paper = record {
  State = Bytes;
  write = λ b s. (some (length b), s ++ b);
  sleep = λ d s. s;
  int63n = λ n s. (pos 0, s);
}

pub paper-IsReliable : IsReliable paper
paper-IsReliable = record {
  written = λ s. s;
  write_all = λ b s. refl;
  write_appends = λ b s. refl;
  sleep_keeps = λ d s. refl;
  int63n_keeps = λ n s. refl;
}

-- The range over a map in the order of its first writes.
abbrev pub in_order : ConfigMap → List JumperlessConfigSection
in_order config = config

same_sections : (config : ConfigMap) → SameSections config config
same_sections [] = end
same_sections (s ∷ config) = section refl (Permᴰ.refl s.entries) (same_sections config)

pub in_order-IsOrdering : (config : ConfigMap) → IsOrdering config (in_order config)
in_order-IsOrdering config = (config, Permᴰ.refl config, same_sections config)
