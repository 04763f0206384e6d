-- ===== src/Base/Calls.antt =====
-- Calls that acquire and release resources, and logs in which all that is acquired is released.
use mathlib.Core.List.{List, [], ◌∷◌, ◌++◌, append-nil, append_assoc}
use mathlib.Core.Path.{◌≡◌, sym, ap, ◌∙◌, subst}

pub data Call (R : Type 0) : Type 0 where
  acquired released : R → Call R

module _ {R : Type 0} where
  pub data Occurs (c : Call R) : List (Call R) → Type 0 where
    first : {cs : List (Call R)} → Occurs c (c ∷ cs)
    further : {d : Call R} {cs : List (Call R)} → Occurs c cs → Occurs c (d ∷ cs)

  Occurs-append :
      {c : Call R} {cs : List (Call R)} (ds : List (Call R)) → Occurs c cs → Occurs c (cs ++ ds)
  Occurs-append ds first = first
  Occurs-append ds (further o) = further (Occurs-append ds o)

  Occurs-append_right :
      {c : Call R} (cs : List (Call R)) {ds : List (Call R)} → Occurs c ds → Occurs c (cs ++ ds)
  Occurs-append_right [] o = o
  Occurs-append_right (d ∷ cs) o = further (Occurs-append_right cs o)

  -- Each resource that is acquired is released later on.
  abbrev pub AllReleased : List (Call R) → Type 0
  AllReleased [] = Unit
  AllReleased (acquired r ∷ cs) = Occurs (released r) cs × AllReleased cs
  AllReleased (released r ∷ cs) = AllReleased cs

  AllReleased-append :
      (cs ds : List (Call R)) → AllReleased cs → AllReleased ds → AllReleased (cs ++ ds)
  AllReleased-append [] ds a b = b
  AllReleased-append (acquired r ∷ cs) ds a b =
      (Occurs-append ds a.0, AllReleased-append cs ds a.1 b)
  AllReleased-append (released r ∷ cs) ds a b = AllReleased-append cs ds a b

  Occurs-insert :
      {c : Call R} (d : Call R) (cs ds : List (Call R))
      → Occurs c (cs ++ ds)
      → Occurs c (cs ++ d ∷ ds)
  Occurs-insert d [] ds o = further o
  Occurs-insert d (e ∷ cs) ds first = first
  Occurs-insert d (e ∷ cs) ds (further o) = further (Occurs-insert d cs ds o)

  -- One release more does no harm.
  pub AllReleased-insert :
      (r : R) (cs ds : List (Call R)) → AllReleased (cs ++ ds) → AllReleased (cs ++ released r ∷ ds)
  AllReleased-insert r [] ds a = a
  AllReleased-insert r (acquired x ∷ cs) ds a =
      (Occurs-insert (released r) cs ds a.0, AllReleased-insert r cs ds a.1)
  AllReleased-insert r (released x ∷ cs) ds a = AllReleased-insert r cs ds a

  -- Two resources that are acquired one behind the other and released so.
  AllReleased-pair :
      (p v : R) (cs ds : List (Call R))
      → AllReleased (cs ++ ds)
      → AllReleased (acquired p ∷ acquired v ∷ (cs ++ released p ∷ released v ∷ ds))
  AllReleased-pair p v cs ds a = (
    further (Occurs-append_right cs first),
    (
      Occurs-append_right cs (further first),
      AllReleased-insert p cs (released v ∷ ds) (AllReleased-insert v cs ds a),
    ),
  )

  module _ {W : Type 0} (log : W → List (Call R)) where
    -- Between two worlds the log grows by calls that release all they acquire.
    pub record Tidy (w w' : W) : Type 0 where
      pub calls : List (Call R)
      pub logged : log w' ≡ log w ++ calls
      pub all_released : AllReleased calls

    pub Tidy-same : {w w' : W} → log w' ≡ log w → Tidy w w'
    Tidy-same e = record { calls = []; logged = e ∙ sym (append-nil _); all_released = tt }

    pub Tidy-release : {w w' : W} (r : R) → log w' ≡ log w ++ released r ∷ [] → Tidy w w'
    Tidy-release r e = record { calls = released r ∷ []; logged = e; all_released = tt }

    pub Tidy-trans : {w w' w'' : W} → Tidy w w' → Tidy w' w'' → Tidy w w''
    Tidy-trans {w = w} a b = record {
      calls = a.calls ++ b.calls;
      logged = b.logged ∙ ap (λ cs. cs ++ b.calls) a.logged ∙ append_assoc (log w) a.calls b.calls;
      all_released = AllReleased-append a.calls b.calls a.all_released b.all_released;
    }

    -- Acquire, do what is tidy, release.
    pub Tidy-bracket :
        {w w1 w2 w3 : W} (r : R)
        → log w1 ≡ log w ++ acquired r ∷ []
        → Tidy w1 w2
        → log w3 ≡ log w2 ++ released r ∷ []
        → Tidy w w3
    Tidy-bracket {w = w} r a b c = record {
      calls = acquired r ∷ (b.calls ++ released r ∷ []);
      logged =
          c
          ∙ ap (λ cs. cs ++ released r ∷ [])
              (b.logged ∙ ap (λ cs. cs ++ b.calls) a ∙ append_assoc (log w) _ _)
          ∙ append_assoc (log w) _ _;
      all_released = (
        Occurs-append_right b.calls first,
        AllReleased-append b.calls (released r ∷ []) b.all_released tt,
      );
    }

    -- Two resources are acquired, calls follow, and both are released before the last calls.
    pub Tidy-pair :
        {w w1 w2 : W} (p v : R) (cs ds : List (Call R))
        → log w1 ≡ log w ++ acquired p ∷ acquired v ∷ cs
        → log w2 ≡ log w1 ++ released p ∷ released v ∷ ds
        → AllReleased (cs ++ ds)
        → Tidy w w2
    Tidy-pair {w = w} p v cs ds a b rest = record {
      calls = acquired p ∷ acquired v ∷ (cs ++ released p ∷ released v ∷ ds);
      logged = b ∙ ap (λ l. l ++ released p ∷ released v ∷ ds) a ∙ append_assoc (log w) _ _;
      all_released = AllReleased-pair p v cs ds rest;
    }

    -- Two resources around what is tidy.
    pub Tidy-around :
        {w w1 w2 w3 : W} (p v : R)
        → log w1 ≡ log w ++ acquired p ∷ acquired v ∷ []
        → Tidy w1 w2
        → log w3 ≡ log w2 ++ released p ∷ released v ∷ []
        → Tidy w w3
    Tidy-around {w = w} p v a b c =
        Tidy-pair p v b.calls [] (b.logged ∙ ap (λ l. l ++ b.calls) a ∙ append_assoc (log w) _ _) c
          (subst AllReleased {x = b.calls} (sym (append-nil b.calls)) b.all_released)
