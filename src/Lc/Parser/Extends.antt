-- ===== src/Lc/Parser/Extends.antt =====
-- How a block grows, and what its statements make of the node that it belongs to.
use mathlib.Core.Path.{subst}
use irid.Base.{◌≡◌, refl, some, none}
use irid.Base.Bytes.{Bytes}
use irid.Lc.Tokens.{Tok}
use irid.Lc.Parser.Nodes.{Node, Nodes, node, nil, cons, add_child, node_if, node_loop}
use irid.Lc.Parser.Shape.{IsExpr, IsStatement, AreStatements, if_then, loop, empty, more}

-- The second list of children is the first one and statements behind it.
abbrev pub Extends : Nodes → Nodes → Type 0
Extends nil all = AreStatements all
Extends (cons x xs) nil = ⊥
Extends (cons x xs) (cons y ys) = (x ≡ y) × Extends xs ys

pub Extends_refl : (children : Nodes) → Extends children children
Extends_refl nil = empty
Extends_refl (cons x xs) = (refl, Extends_refl xs)

pub Extends_drop :
    (children all : Nodes) {s : Node}
    → IsStatement s
    → Extends (add_child children s) all
    → Extends children all
unfolding add_child
Extends_drop nil nil shape h = elim h [ ]
Extends_drop nil (cons y ys) shape (e, h) = more (subst IsStatement e shape) h
Extends_drop (cons x xs) nil shape h = elim h [ ]
Extends_drop (cons x xs) (cons y ys) shape (e, h) = (e, Extends_drop xs ys shape h)

pub Extends-add_child :
    (children : Nodes) {s : Node} → IsStatement s → Extends children (add_child children s)
Extends-add_child children {s} shape =
    Extends_drop children (add_child children s) shape (Extends_refl (add_child children s))

pub if_then-IsStatement :
    (all : Nodes) {condition : Node} {t : Tok}
    → IsExpr condition
    → Extends (cons condition nil) all
    → IsStatement (node node_if (some t) none all)
if_then-IsStatement nil c h = elim h [ ]
if_then-IsStatement (cons x body) c (e, h) = if_then (subst IsExpr e c) h

pub loop-IsStatement :
    (all : Nodes) {start end : Node} {index : Bytes} {t : Tok}
    → IsExpr start
    → IsExpr end
    → Extends (cons start (cons end nil)) all
    → IsStatement (node (node_loop index) (some t) none all)
loop-IsStatement nil a b h = elim h [ ]
loop-IsStatement (cons x nil) a b (_, h) = elim h [ ]
loop-IsStatement (cons x (cons y body)) a b (e, (e', h)) =
    loop (subst IsExpr e a) (subst IsExpr e' b) h
