-- ===== src/Local/Nets/Printed.antt =====
-- A net as a line of the firmware's table, and that `parseNetLine` reads it back.
use k8s_jumperless.Base.{some, List, [], ◌∷◌, ◌++◌, ◌≡◌, ◌≢◌, refl, ap, arith, Bytes, codes, All}
use k8s_jumperless.Local.Nets.Sound.{IsNode, IsOneOf, here, there}
use k8s_jumperless.Local.Nets.{named_colors, find_color, trimmed_pieces, parse_nodes}
use k8s_jumperless.Strings.Space.Laws.{
  IsTrimmed, trim_space_fixed, space_width-append_ascii, no_last-append,
}
use k8s_jumperless.Strings.Space.{trim_space}
use k8s_jumperless.Strings.Split.Laws.{Lacks, split-join}
use k8s_jumperless.Strings.Split.{join}

trimmed_pieces_nodes : (nodes : List Bytes) → All IsNode nodes → trimmed_pieces nodes ≡ nodes
unfolding trimmed_pieces
trimmed_pieces_nodes [] h = refl
trimmed_pieces_nodes (node ∷ nodes) h = go node h.0 (trimmed_pieces_nodes nodes h.1)
  where
    go :
        (node : Bytes)
        → IsNode node
        → trimmed_pieces nodes ≡ nodes
        → trimmed_pieces (node ∷ nodes) ≡ node ∷ nodes
    go [] n e = absurd (n.ne_nil refl)
    go (c ∷ s) n e = rw (trim_space_fixed (c ∷ s) n.trimmed, trimmed_pieces) (ap (◌∷◌ (c ∷ s)) e)

All-Lacks : (nodes : List Bytes) → All IsNode nodes → All (Lacks b',') nodes
All-Lacks [] h = tt
All-Lacks (node ∷ nodes) h = (h.0.one_piece, All-Lacks nodes h.1)

-- The nodes of a line are the pieces between its commas.
pub parse_nodes-join :
    (node : Bytes) (nodes : List Bytes)
    → All IsNode (node ∷ nodes)
    → parse_nodes (join (node ∷ nodes) (codes ",")) ≡ node ∷ nodes
unfolding parse_nodes
parse_nodes-join node nodes h =
    rw (split-join node nodes b',' (All-Lacks (node ∷ nodes) h))
      (trimmed_pieces_nodes (node ∷ nodes) h)

pub join-ne-nil :
    (node : Bytes) (nodes : List Bytes) → node ≢ [] → join (node ∷ nodes) (codes ",") ≢ []
unfolding join
join-ne-nil [] nodes ne = absurd (ne refl)
join-ne-nil (c ∷ s) [] ne = λ e. cc
join-ne-nil (c ∷ s) (q ∷ nodes) ne = λ e. cc

pub join-IsTrimmed :
    (node : Bytes) (nodes : List Bytes)
    → All IsNode (node ∷ nodes)
    → IsTrimmed (join (node ∷ nodes) (codes ","))
unfolding join
join-IsTrimmed node [] h = h.0.trimmed
join-IsTrimmed node (q ∷ nodes) h =
    let rest = join-IsTrimmed q nodes h.1 in
    record {
      no_first = space_width-append_ascii node b',' _ h.0.ne_nil h.0.trimmed.no_first (omega arith);
      no_last =
          no_last-append node b',' _ (join-ne-nil q nodes h.1.0.ne_nil) rest.no_last (omega arith);
    }

-- `named_colors` has no color that another one begins with, so the color before any text is found.
pub find_color_named :
    {color : Bytes}
    → IsOneOf color named_colors
    → (rest : Bytes) → find_color named_colors (color ++ rest) ≡ some (color, trim_space rest)
unfolding find_color
find_color_named (here e) rest = rw e
find_color_named (there (here e)) rest = rw e
find_color_named (there (there (here e))) rest = rw e
find_color_named (there (there (there (here e)))) rest = rw e
find_color_named (there (there (there (there (here e))))) rest = rw e
find_color_named (there (there (there (there (there (here e)))))) rest = rw e
find_color_named (there (there (there (there (there (there (here e))))))) rest = rw e
find_color_named (there (there (there (there (there (there (there (here e)))))))) rest = rw e
find_color_named (there (there (there (there (there (there (there (there (here e))))))))) rest =
    rw e
find_color_named (there (there (there (there (there (there (there (there (there (here e))))))))))
      rest =
    rw e
find_color_named
      (there (there (there (there (there (there (there (there (there (there (here e)))))))))))
      rest =
    rw e
find_color_named
      (there
        (there (there (there (there (there (there (there (there (there (there (here e))))))))))))
      rest =
    rw e
find_color_named
      (there (
        there
          (there (there (there (there (there (there (there (there (there (there (here e)))))))))))))
      rest =
    rw e
find_color_named
      (there (
        there (
          there (
            there
              (there (there (there (there (there (there (there (there (there (here e))))))))))))))
      rest =
    rw e
find_color_named
      (there (
        there (
          there (
            there (
              there (
                there (there (there (there (there (there (there (there (there (here e)))))))))))))))
      rest =
    rw e
find_color_named
      (there (
        there (
          there (
            there (
              there (
                there (
                  there
                    (there (there (there (there (there (there (there (there (here e))))))))))))))))
      rest =
    rw e
find_color_named
      (there (
        there (
          there (
            there (
              there (
                there (
                  there (
                    there (
                      there
                        (there (there (there (there (there (there (there (here e)))))))))))))))))
      rest =
    rw e
find_color_named
      (there (
        there (
          there (
            there (
              there (
                there (
                  there (
                    there (
                      there (
                        there
                          (there (there (there (there (there (there (there (here e))))))))))))))))))
      rest =
    rw e
find_color_named
      (there (
        there (
          there (
            there (
              there (
                there (
                  there (
                    there (
                      there (
                        there (
                          there (there (there (there (there (there (there (there h))))))))))))))))))
      rest =
    elim h [ ]
