-- ===== src/FileSystem/Nodes.antt =====
-- Looking up, putting and erasing nodes, and what is then at other paths.
use obsidian_live_syncinator.Prelude.{
  ◌≡◌, refl, ◌∙◌, true, false, none, some, [], ◌∷◌, ◌↔◌, arith, if◌then◌else◌,
}
use obsidian_live_syncinator.Diff.{Text}
use obsidian_live_syncinator.FilePath.{text_eq}
use obsidian_live_syncinator.FilePath.Names.{text_eq_path}
use obsidian_live_syncinator.FileSystem.{Node, Nodes, FileSystem, node_at, erase, put}

pub text_eq_iff : (s t : Text) → (text_eq s t ≡ true) ↔ (s ≡ t)
text_eq_iff s t = (text_eq_path s t, λ e. rw e (text_eq_refl t))
  where
    text_eq_refl : (t : Text) → text_eq t t ≡ true
    text_eq_refl [] = refl
    text_eq_refl (c ∷ t) = let rest = text_eq_refl t in ground arith

pub node_at-erase :
    (p q : Text) (nodes : Nodes)
    → node_at q (erase p nodes) ≡ (if text_eq p q then none else node_at q nodes)
node_at-erase p q [] = ground arith
node_at-erase p q ((k, node) ∷ nodes) =
    ground (arith, text_eq_iff k p, text_eq_iff k q, text_eq_iff p q, node_at-erase p q nodes)

pub node_at-put :
    (p q : Text) (node : Node) (nodes : Nodes)
    → node_at q (put p node nodes) ≡ (if text_eq p q then some node else node_at q nodes)
node_at-put p q node nodes = ground (arith, node_at-erase p q nodes)

-- Nothing but what is at one path has changed.
abbrev pub Only : Text → FileSystem → FileSystem → Type 0
Only p fs fs' = (q : Text) → text_eq p q ≡ false → node_at q fs'.nodes ≡ node_at q fs.nodes

pub Only-trans : (p : Text) (a b c : FileSystem) → Only p a b → Only p b c → Only p a c
Only-trans p a b c f g q h = g q h ∙ f q h

pub Only-put :
    (p : Text) (node : Node) (fs : FileSystem)
    → Only p fs (record fs { nodes = put p node fs.nodes })
Only-put p node fs q h = ground (arith, node_at-put p q node fs.nodes)

pub Only-erase : (p : Text) (fs : FileSystem) → Only p fs (record fs { nodes = erase p fs.nodes })
Only-erase p fs q h = ground (arith, node_at-erase p q fs.nodes)
