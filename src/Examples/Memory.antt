-- ===== src/Examples/Memory.antt =====
-- The theorems on chunks, episodes and retrieval at concrete values.
use Prim.Native.Char.{Char}
use aegis_project.Prelude.{
  ℕ, ◌≡◌, refl, arith, String, Bool, true, false, ap, str_eq, eq_iff, ◌&&◌, Option, none, some,
  List, [], ◌∷◌, ◌++◌, All, All-append,
}
use aegis_project.Prelude.Int.{pos}
use aegis_project.Json.{Json, Fields, end, field, get}
use aegis_project.Events.{IncidentEvent}
use aegis_project.Texts.{chars}
use aegis_project.Chunking.{Lexer, chunk_markdown}
use aegis_project.Chunking.Window.{window}
use aegis_project.Chunking.Laws.{Windows, window-Windows}
use aegis_project.Chunking.Numbering.{NumberedResult, chunk_markdown-Numbered}
use aegis_project.Retrieval.{EvidenceBundle, precedent_gate, precedent_threshold, retrieve}
use aegis_project.Rag.{knowledge_of}
use aegis_project.VectorStore.{Client, Point, ScoredPoint, Conditions}
use aegis_project.Knowledge.{Services, consume_resolved}
use aegis_project.Knowledge.Laws.{
  ClientLaws, equal-Matches, MatchesAll, StoredUnknown, EpisodesUnknown, resolve-EpisodesUnknown,
  retrieve_unknown,
}
use aegis_project.Executor.Worker.{resolve}
use aegis_project.Examples.Fixtures.{env, runtime, clocks, state, event}

abbrev text : List Char
text = chars "# step one and two"

window-Windows_example : Windows 8 3 text (window 8 3 text)
window-Windows_example = window-Windows 8 3 text (omega arith)

abbrev lexer : Lexer
lexer = record { finditer = λ t. (0, 6) ∷ []; is_space = λ c. false; newline = "\n" }

chunk_markdown-Numbered_example : NumberedResult 8 0 (chunk_markdown lexer 8 3 text)
chunk_markdown-Numbered_example = chunk_markdown-Numbered lexer 8 3 text (omega arith)

-- A store that is a list of points; a search gives the points that match all conditions.
abbrev hit_of : Point ℕ → ScoredPoint
hit_of p = record { point_id = p.point_id; score = pos 900000; payload = p.payload }

abbrev has_text : Option Json → Json → Bool
has_text (some (Json.text s)) (Json.text t) = str_eq s t
has_text _ _ = false

abbrev holds_all : Conditions → Fields → Bool
holds_all [] p = true
holds_all ((k, v) ∷ cs) p = has_text (get k p) v && holds_all cs p

abbrev passes : Option Conditions → Fields → Bool
passes none p = true
passes (some cs) p = holds_all cs p

abbrev add_if : Bool → ScoredPoint → List ScoredPoint → List ScoredPoint
add_if true h hs = h ∷ hs
add_if false h hs = hs

abbrev points_like : Option Conditions → List (Point ℕ) → List ScoredPoint
points_like f [] = []
points_like f (p ∷ ps) = add_if (passes f p.payload) (hit_of p) (points_like f ps)

abbrev find_points : String → ℕ → Option Conditions → ℕ → List (Point ℕ) → List ScoredPoint
find_points c v f limit stored = points_like f stored

abbrev client : Client
client = record {
  Vector = ℕ;
  Stored = List (Point ℕ);
  upsert = λ c points stored. stored ++ points;
  search = find_points;
}

has_text-eq : (o : Option Json) (v : Json) → has_text o v ≡ true → o ≡ some v
has_text-eq (some (Json.text s)) (Json.text t) h = ap (λ z. some (Json.text z)) ((eq_iff s t).0 h)
has_text-eq _ _ h = cc

holds_all-MatchesAll :
    (cs : Conditions) (p : Fields) → holds_all cs p ≡ true → MatchesAll (some cs) p
holds_all-MatchesAll [] p h = tt
holds_all-MatchesAll ((k, v) ∷ cs) p h = (
  equal-Matches k v p (has_text-eq (get k p) v (ground arith)),
  holds_all-MatchesAll cs p (ground arith),
)

passes-MatchesAll : (f : Option Conditions) (p : Fields) → passes f p ≡ true → MatchesAll f p
passes-MatchesAll none p h = tt
passes-MatchesAll (some cs) p h = holds_all-MatchesAll cs p h

add_if-All :
    (Q : ScoredPoint → Type 0) (b : Bool) (h : ScoredPoint) (hs : List ScoredPoint)
    → (b ≡ true → Q h)
    → All Q hs
    → All Q (add_if b h hs)
add_if-All Q true h hs q qs = (q refl, qs)
add_if-All Q false h hs q qs = qs

points_like-All :
    (P : Fields → Type 0) (f : Option Conditions) (ps : List (Point ℕ))
    → All (λ p. P p.payload) ps
    → All (λ (h : ScoredPoint). P h.payload × MatchesAll f h.payload) (points_like f ps)
points_like-All P f [] h = tt
points_like-All P f (p ∷ ps) h =
    add_if-All _ (passes f p.payload) (hit_of p) (points_like f ps)
      (λ e. (h.0, passes-MatchesAll f p.payload e)) (points_like-All P f ps h.1)

abbrev client_laws : ClientLaws client
client_laws = record {
  points = λ c stored. stored;
  upsert_All = λ P c new stored hn hs. All-append P stored new hs hn;
  search_All = λ P c v f limit stored h. points_like-All P f stored h;
}

abbrev services : Services
services = record {
  client = client;
  embed = λ texts. 1 ∷ [];
  lexer = lexer;
  uuid5 = λ s. s;
  show = λ v. "value";
  decimal = λ n. "0";
  uuid_text = λ n. "id";
}

-- An earlier episode.
abbrev first_episode : Point ℕ
first_episode = record {
  point_id = "id";
  vector = 1;
  payload = field "service" (Json.text "unknown") end;
}

abbrev episodes : List (Point ℕ)
episodes = first_episode ∷ []

episodes-EpisodesUnknown : EpisodesUnknown services client_laws episodes
unfolding EpisodesUnknown get
episodes-EpisodesUnknown = (refl, tt)

resolve-EpisodesUnknown_example :
    (e : IncidentEvent env.crypto.Digest) × (stored' : List (Point ℕ)) × ((resolve env runtime
        clocks 3 7 event state).bus
      ≡ e ∷ [])
    × (consume_resolved services e "now" episodes ≡ some stored')
    × StoredUnknown services client_laws 3 "now" episodes stored'
    × EpisodesUnknown services client_laws stored'
resolve-EpisodesUnknown_example =
    resolve-EpisodesUnknown services client_laws env runtime clocks 3 7 event state "now" episodes
      (λ text. (1, refl)) episodes-EpisodesUnknown

-- The client finds the episode for the service that it names, and no episode for another.
find_unknown :
    find_points "incidents_episodic" 1 (some (("service", Json.text "unknown") ∷ [])) 3 episodes
    ≡ hit_of first_episode ∷ []
unfolding get
find_unknown = refl

find_checkout :
    find_points "incidents_episodic" 1 (some (("service", Json.text "checkout") ∷ [])) 3 episodes
    ≡ []
unfolding get
find_checkout = refl

retrieve_unknown_example :
    (bundle : EvidenceBundle) × (retrieve
        (knowledge_of client services.show services.embed episodes)
        "errors"
        (some "checkout")
        5
        3
      ≡ some bundle)
    × (precedent_gate bundle precedent_threshold ≡ false)
retrieve_unknown_example =
    retrieve_unknown services client_laws "checkout" refl refl "errors" 5 3 episodes
      episodes-EpisodesUnknown 1 refl
