-- ===== src/Ec2/Counted.antt =====
-- backend/aws/ec2_service.py: the counts of `summarize_instances`.
use aiops_aws.Prelude.{
  ℕ, ◌+◌, ◌≤◌, String, ◌≡◌, refl, Option, none, List, [], ◌∷◌, length, filter, arith, str_eq,
  eq_iff, insert_sorted, IsAscending, sorted-IsAscending, length-filter-sorted, if◌then◌else◌, max,
}
use aiops_aws.Outcome.{ok}
use aiops_aws.Ec2.{Instance, Client, fetch_instances, resolved_region}
use aiops_aws.Ec2.Instances.{
  Ec2StateCount, Ec2InstanceSummaryResponse, count_one, count_from, by_state_name,
  summarize_instances,
}

-- what the counts say of a state
abbrev pub amount : String → List Ec2StateCount → ℕ
amount state [] = 0
amount state (c ∷ counts) =
    let rest = amount state counts in if str_eq c.state state then c.count + rest else rest

abbrev pub entries : String → List Ec2StateCount → ℕ
entries state counts = length (filter (λ c. str_eq c.state state) counts)

abbrev pub in_state : String → List Instance → ℕ
in_state state is = length (filter (λ i. str_eq i.state_name state) is)

amount-count_one :
    (state x : String) (counts : List Ec2StateCount)
    → amount state (count_one x counts) ≡ amount state counts + (if str_eq x state then 1 else 0)
amount-count_one state x [] = ground arith
amount-count_one state x (c ∷ counts) =
    ground (arith, eq_iff c.state x, amount-count_one state x counts)

amount-count_from :
    (state : String) (counts : List Ec2StateCount) (is : List Instance)
    → amount state (count_from counts is) ≡ amount state counts + in_state state is
amount-count_from state counts [] = omega arith
amount-count_from state counts (i ∷ is) = ground (
  arith,
  amount-count_from state (count_one i.state_name counts) is,
  amount-count_one state i.state_name counts,
)

amount-insert_sorted :
    (state : String) (a : Ec2StateCount) (l : List Ec2StateCount)
    → amount state (insert_sorted (λ (c : Ec2StateCount). c.state) a l) ≡ amount state (a ∷ l)
amount-insert_sorted state a [] = refl
amount-insert_sorted state a (c ∷ l) = ground (arith, amount-insert_sorted state a l)

amount-sorted :
    (state : String) (l : List Ec2StateCount) → amount state (by_state_name l) ≡ amount state l
amount-sorted state [] = refl
amount-sorted state (a ∷ l) =
    ground (arith, amount-insert_sorted state a (by_state_name l), amount-sorted state l)

entries-count_one :
    (state x : String) (counts : List Ec2StateCount)
    → entries state (count_one x counts)
      ≡ (if str_eq x state then max 1 (entries state counts) else entries state counts)
entries-count_one state x [] = ground arith
entries-count_one state x (c ∷ counts) = ground (
  arith,
  eq_iff c.state x,
  eq_iff x state,
  eq_iff c.state state,
  entries-count_one state x counts,
)

entries-count_from :
    (state : String) (counts : List Ec2StateCount) (is : List Instance)
    → entries state counts ≤ 1
    → entries state (count_from counts is) ≤ 1
entries-count_from state counts [] h = h
entries-count_from state counts (i ∷ is) h =
    entries-count_from state (count_one i.state_name counts) is
      (ground (arith, h, entries-count_one state i.state_name counts))

-- Where AWS answers, the summary counts each state as often as the answer has instances in it,
-- lists each state at most once and in the order of the states, and gives the number of
-- instances as the total.
pub summarize_instances-counts :
    (ec2_client : String → Client) (aws_region : String) (region : Option String)
    (raw : List Instance)
    → fetch_instances (ec2_client (resolved_region aws_region region)) none ≡ ok raw
    → (summary : Ec2InstanceSummaryResponse) × (summarize_instances ec2_client aws_region region
        ≡ ok summary)
      × (summary.total ≡ length raw)
      × ((state : String) → amount state summary.by_state ≡ in_state state raw)
      × ((state : String) → entries state summary.by_state ≤ 1)
      × IsAscending (λ (c : Ec2StateCount). c.state) summary.by_state
unfolding summarize_instances
summarize_instances-counts ec2_client aws_region region raw f =
    let counts = count_from [] raw in
    (
      record {
        region = resolved_region aws_region region;
        total = length raw;
        by_state = by_state_name counts;
      },
      rw f refl,
      refl,
      (λ state. ground (arith, amount-sorted state counts, amount-count_from state [] raw)),
      (λ state. ground (
        arith,
        length-filter-sorted (λ (c : Ec2StateCount). c.state) (λ c. str_eq c.state state) counts,
        entries-count_from state [] raw,
      )),
      sorted-IsAscending (λ (c : Ec2StateCount). c.state) counts,
    )
