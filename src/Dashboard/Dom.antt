-- ===== src/Dashboard/Dom.antt =====
-- public/js/dom.js and public/js/format.js: elements, and the texts on them.
use order_outbox_lab.Common.{List, [], ◌∷◌, ◌++◌, Option, none, some, Text, codes, take}

-- An element with its text and, after it, its children. `on_click`: the id that a click selects.
mutual
  pub data Node : Type 0 where
    element : (tag class_name text : Text) (on_click : Option Text) → Nodes → Node

  pub data Nodes : Type 0 where
    end : Nodes
    more : Node → Nodes → Nodes

-- `textContent` is set, never HTML.
abbrev pub el : Text → Text → Text → Node
el tag class_name text = element tag class_name text none end

abbrev pub children : List Node → Nodes
children [] = end
children (n ∷ ns) = more n (children ns)

-- `el(tag, className)` with children appended.
abbrev pub parent : Text → Text → Option Text → List Node → Node
parent tag class_name on_click nodes = element tag class_name [] on_click (children nodes)

abbrev pub badge : Text → Node
badge status = el (codes "span") (codes "badge " ++ status) status

abbrev pub short_id : Text → Text
short_id id = take 8 id

-- `utc`: what dayjs makes of an ISO text, formatted `LTS`; `none` where it is not valid.
unfoldable pub time : (Text → Option Text) → Text → Text
time utc [] = codes "—"
time utc (c ∷ cs) = or_dash (utc (c ∷ cs))
  where
    or_dash : Option Text → Text
    or_dash none = codes "—"
    or_dash (some t) = t
