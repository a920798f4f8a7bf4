-- ===== src/Adapters/Client/Merging.antt =====
-- How the default options of a client and the options of a call come together.
use v_exchanges.Prelude.{List, [], ◌∷◌, ◌++◌, ◌≡◌, refl, ap, ◌∙◌}
use v_exchanges.Adapters.Traits.{HandlerOptions}
use v_exchanges.Adapters.Client.{GetOptions, merged_from, merged_options, update_default_option}

module _ {Options OptionItem : Type 0} (h : HandlerOptions Options OptionItem) where
  -- What one update keeps, any number of them keeps.
  pub merged_from-keeps :
      (P : Options → Type 0) (o : Options) (items : List OptionItem)
      → ((item : OptionItem) (o : Options) → P o → P (h.update item o))
      → P o
      → P (merged_from h o items)
  merged_from-keeps P o [] keeps p = p
  merged_from-keeps P o (item ∷ rest) keeps p =
      merged_from-keeps P (h.update item o) rest keeps (keeps item o p)

-- What is read after a write is what was written.
abbrev pub IsLens : {C Options : Type 0} → GetOptions C Options → Type 0
IsLens {C} {Options} get =
    (o : Options) (c : C) → get.default_options (get.set_default_options o c) ≡ o

module _ {C Options OptionItem : Type 0} (h : HandlerOptions Options OptionItem)
    (get : GetOptions C Options) where
  -- `update_default_option` with each item of a list.
  abbrev pub update_all : List OptionItem → C → C
  update_all [] c = c
  update_all (item ∷ items) c = update_all items (update_default_option h get item c)

  -- A call with options of its own on a client whose defaults were updated is a call with all these
  -- options, the defaults first, on the client as it was before.
  pub merged_options-update_all :
      (c : C) (defaults options : List OptionItem)
      → IsLens get
      → merged_options h get (update_all defaults c) options
        ≡ merged_options h get c (defaults ++ options)
  unfolding merged_options update_default_option
  merged_options-update_all c [] options lens = refl
  merged_options-update_all c (item ∷ rest) options lens =
      let o = h.update item (get.default_options c) in
      merged_options-update_all (update_default_option h get item c) rest options lens
      ∙ ap (λ d. merged_from h d (rest ++ options)) (lens o c)
