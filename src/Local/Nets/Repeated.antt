-- ===== src/Local/Nets/Repeated.antt =====
-- What `parseNets` makes of an output that comes twice.
use mathlib.Core.List.{append-nil, append_assoc}
use mathlib.Core.Path.{ap₂}
use k8s_jumperless.Api.Types.{Net}
use k8s_jumperless.Base.{
  Bool, true, false, List, [], ◌∷◌, ◌++◌, ◌≡◌, refl, sym, ap, ◌∙◌, Bytes, codes, pos, Result, ok,
  err, Bool-cases, inl, inr,
}
use k8s_jumperless.Local.Nets.{
  NetError, is_duplicate, NetScan, collect_net, parse_net_line, scan_line, scan_lines, parse_nets,
}
use k8s_jumperless.Strings.Affix.{has_prefix}
use k8s_jumperless.Strings.Space.{trim_space}
use k8s_jumperless.Strings.Split.Laws.{Lacks, split-append, split_missing}
use k8s_jumperless.Strings.Split.{split}

abbrev prepend : NetScan → NetScan → NetScan
prepend p s = record { has_color = s.has_color; nets = p.nets ++ s.nets; errs = p.errs ++ s.errs }

collect_net-prepend :
    (p s : NetScan) (r : Result NetError Net)
    → collect_net (prepend p s) r ≡ prepend p (collect_net s r)
collect_net-prepend p s (ok net) = rw append_assoc
collect_net-prepend p s (err e) = elim (Bool-cases (is_duplicate e)) [
  | inl d ↦ rw d
  | inr d ↦ rw d (rw append_assoc)
]

scan_line-prepend :
    (p s : NetScan) (line : Bytes) → scan_line (prepend p s) line ≡ prepend p (scan_line s line)
unfolding scan_line
scan_line-prepend p s line = go (trim_space line) refl
  where
    go :
        (t : Bytes)
        → trim_space line ≡ t
        → scan_line (prepend p s) line ≡ prepend p (scan_line s line)
    go [] e = rw (e, scan_line)
    go (c ∷ t) e = elim (Bool-cases (has_prefix (c ∷ t) (codes "Index"))) [
      | inl i ↦ rw (e, scan_line) (rw i)
      | inr i ↦
          rw (e, scan_line)
            (rw i (collect_net-prepend p s (parse_net_line (c ∷ t) s.has_color (pos 0))))
    ]

scan_lines-prepend :
    (lines : List Bytes) (p s : NetScan)
    → scan_lines (prepend p s) lines ≡ prepend p (scan_lines s lines)
unfolding scan_lines
scan_lines-prepend [] p s = refl
scan_lines-prepend (line ∷ lines) p s =
    ap (λ t. scan_lines t lines) (scan_line-prepend p s line)
    ∙ scan_lines-prepend lines p (scan_line s line)

scan_lines-append :
    (xs ys : List Bytes) (s : NetScan) → scan_lines s (xs ++ ys) ≡ scan_lines (scan_lines s xs) ys
unfolding scan_lines
scan_lines-append [] ys s = refl
scan_lines-append (x ∷ xs) ys s = scan_lines-append xs ys (scan_line s x)

-- A heading sets the kind of the table whatever it was.
scan_line_heading :
    (s : NetScan) (flag : Bool) (heading : Bytes)
    → has_prefix (trim_space heading) (codes "Index") ≡ true
    → scan_line s heading ≡ scan_line (record s { has_color = flag }) heading
unfolding scan_line
scan_line_heading s flag heading h = go (trim_space heading) refl
  where
    go :
        (t : Bytes)
        → trim_space heading ≡ t
        → scan_line s heading ≡ scan_line (record s { has_color = flag }) heading
    go [] e = (let k = rw e at h in unfold has_prefix in cc)
    go (c ∷ t) e = rw (e, scan_line) (rw (rw e at h))

abbrev empty_scan : NetScan
empty_scan = record { has_color = false; nets = []; errs = [] }

prepend-empty : (s : NetScan) → prepend s (record empty_scan { has_color = s.has_color }) ≡ s
prepend-empty s = simp append-nil

scan_lines_heading :
    (s : NetScan) (heading : Bytes) (lines : List Bytes)
    → has_prefix (trim_space heading) (codes "Index") ≡ true
    → scan_lines s (heading ∷ lines) ≡ prepend s (scan_lines empty_scan (heading ∷ lines))
unfolding scan_lines
scan_lines_heading s heading lines h =
    let e = record empty_scan { has_color = s.has_color } in
    ap (λ t. scan_lines t (heading ∷ lines)) (sym (prepend-empty s))
    ∙ scan_lines-prepend (heading ∷ lines) s e
    ∙ ap (λ t. prepend s (scan_lines t lines))
        (sym (scan_line_heading empty_scan s.has_color heading h))

-- An output that begins with a heading and comes twice, with a newline between, gives every net
-- and every error twice: no line of the second copy is taken for a duplicate of the first.
pub parse_nets_repeated :
    (heading rest : Bytes)
    → Lacks b'\n' heading
    → has_prefix (trim_space heading) (codes "Index") ≡ true
    → let out = heading ++ b'\n' ∷ rest in
      parse_nets (out ++ b'\n' ∷ out)
      ≡ ((parse_nets out).0 ++ (parse_nets out).0, (parse_nets out).1 ++ (parse_nets out).1)
unfolding parse_nets
parse_nets_repeated heading rest h i =
    let out = heading ++ b'\n' ∷ rest in
    let lines = split rest (codes "\n") in
    let one : split out (codes "\n") ≡ heading ∷ lines =
      split-append heading b'\n' rest ∙ ap (λ ps. ps ++ lines) (split_missing heading b'\n' h) in
    let first = scan_lines empty_scan (heading ∷ lines) in
    let twice : scan_lines empty_scan (split (out ++ b'\n' ∷ out) (codes "\n"))
        ≡ prepend first first =
      ap (scan_lines empty_scan) (split-append out b'\n' out ∙ ap₂ (◌++◌) one one)
      ∙ scan_lines-append (heading ∷ lines) (heading ∷ lines) empty_scan
      ∙ scan_lines_heading first heading lines i in
    rw one (ap (λ (t : NetScan). (t.nets, t.errs)) twice)
