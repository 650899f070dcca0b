-- ===== src/Tests/OfHistory.antt =====
-- The comments that a coder is given: internal/dispatcher/comment_history.go.
use matea.Base.{codes, text_eq, List, [], ◌∷◌, ◌≡◌, ◌-◌, refl, length, select, trim_space}
use matea.Dispatcher.History.{
  IssueComment, started_mark, is_progress_only_comment, is_useful, select_comments_for_context,
}
use matea.Dispatcher.History.Selection.{recent, is_preferred, select_comments_for_context-eq-recent}

-- a review, a ping and two later comments
abbrev thread : List IssueComment
thread =
    record { login = codes "rev"; body = codes "Rename f" }
    ∷ record { login = codes "bot"; body = started_mark }
    ∷ record { login = codes "ann"; body = codes "See above" }
    ∷ record { login = codes "bob"; body = codes "Please fix" }
    ∷ []

abbrev thread_selected : List IssueComment
thread_selected =
    record { login = codes "rev"; body = codes "Rename f" }
    ∷ record { login = codes "bob"; body = codes "Please fix" }
    ∷ []

thread_picked :
    select_comments_for_context trim_space (text_eq (codes "rev")) thread 2 ≡ thread_selected
unfolding select_comments_for_context is_useful is_progress_only_comment
thread_picked = refl

select_comments_for_context-eq-recent_example :
    select_comments_for_context trim_space (text_eq (codes "rev")) thread 2
    ≡ recent trim_space
        (text_eq (codes "rev"))
        2
        (2 - length (select (is_preferred trim_space (text_eq (codes "rev"))) thread))
        thread
select_comments_for_context-eq-recent_example =
    select_comments_for_context-eq-recent trim_space (text_eq (codes "rev")) thread 2
