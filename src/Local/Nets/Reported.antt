-- ===== src/Local/Nets/Reported.antt =====
-- What holds of every net that `parseNets` collects.
use k8s_jumperless.Api.Types.{Net}
use k8s_jumperless.Base.{
  Bool, List, [], ◌∷◌, ◌≡◌, refl, Bytes, codes, pos, All, All-append, Result, ok, err, Bool-cases,
  inl, inr,
}
use k8s_jumperless.Local.Nets.Sound.{IsParsed, parse_net_line-IsParsed}
use k8s_jumperless.Local.Nets.{
  NetError, parse_net_line, NetScan, collect_net, scan_line, scan_lines, parse_nets, is_duplicate,
}
use k8s_jumperless.Strings.Affix.{has_prefix}
use k8s_jumperless.Strings.Space.{trim_space}
use k8s_jumperless.Strings.Split.{split}

-- The net of a line of either kind of table, with a positive index.
abbrev pub IsReported : Net → Type 0
IsReported net = (has_color : Bool) × IsParsed has_color (pos 0) net

collect_net-IsReported :
    (scan : NetScan) (r : Result NetError Net)
    → ((net : Net) → r ≡ ok net → IsReported net)
    → All IsReported scan.nets
    → All IsReported (collect_net scan r).nets
collect_net-IsReported scan (ok net) f h =
    All-append IsReported scan.nets (net ∷ []) h (f net refl, tt)
collect_net-IsReported scan (err e) f h = elim (Bool-cases (is_duplicate e)) [
  | inl d ↦ rw d h
  | inr d ↦ rw d h
]

scan_line-IsReported :
    (scan : NetScan) (line : Bytes)
    → All IsReported scan.nets
    → All IsReported (scan_line scan line).nets
unfolding scan_line
scan_line-IsReported scan line h = go (trim_space line) refl
  where
    go : (s : Bytes) → trim_space line ≡ s → All IsReported (scan_line scan line).nets
    go [] e = rw (e, scan_line) h
    go (c ∷ s) e = elim (Bool-cases (has_prefix (c ∷ s) (codes "Index"))) [
      | inl i ↦ rw (e, scan_line) (rw i h)
      | inr i ↦
          rw (e, scan_line)
            (rw i (
              collect_net-IsReported scan (parse_net_line (c ∷ s) scan.has_color (pos 0))
                (λ net r.
                  (scan.has_color, parse_net_line-IsParsed (c ∷ s) scan.has_color (pos 0) net r))
                h))
    ]

scan_lines-IsReported :
    (lines : List Bytes) (scan : NetScan)
    → All IsReported scan.nets
    → All IsReported (scan_lines scan lines).nets
unfolding scan_lines
scan_lines-IsReported [] scan h = h
scan_lines-IsReported (line ∷ lines) scan h =
    scan_lines-IsReported lines (scan_line scan line) (scan_line-IsReported scan line h)

-- Every net that `parseNets` collects is the net of a line of one of the two kinds of table:
-- its index is positive and fits an `int32`, its name is trimmed, its nodes are not empty,
-- trimmed and without a comma, and it has either a voltage that ends in `V` and no color, or one
-- of the named colors and no voltage.
pub parse_nets-IsReported : (nets_output : Bytes) → All IsReported (parse_nets nets_output).0
unfolding parse_nets
parse_nets-IsReported nets_output = scan_lines-IsReported (split nets_output (codes "\n")) _ tt
