-- ===== src/Lib.antt =====
-- The recommendations of laburi.to: a service that matches employees with job positions. A write to
-- a profile or a position asks for recommendations (the publisher), which opens a batch in the
-- database and sends a message that names it; a worker receives the message, reads the pairs of
-- employee and position, has them scored and replaces the subject's set of recommendations; the
-- queries read that set for its owner. Employers publish, edit and delete the positions,
-- and read the profiles of employees who are recommended to them. Users register with
-- one of the two roles and log in.
--
-- Which file models what, with paths from the root of the repository:
--   Errors                        the sentinel errors of internal/*/errors.go and errors.Is
--   Scoring/*                     internal/scoring: levels, pairs, results, validation, the port of
--                                 the scorer and the implementation that is deployed
--   Database/Schema, Connection   sql/schema/0007_recommendations.sql and the tables it refers to; a
--                                 connection, its failures and its transactions
--   Database/Batches, Profiles    sql/queries/recommendations.sql, which
--                                 internal/database/recommendations.sql.go runs
--   Database/*                    what each statement keeps, where it succeeds, and the rules by which
--                                 such facts compose
--   Queue/Client, Config, Fake    internal/queue and internal/queue/queuetest
--   Recommendation/Models, Events internal/recommendation/models.go and events.go
--   Recommendation/Repo           repo.go, the operations that write (CreateBatch is create_batch, and
--                                 so on); Recommendation/Candidates, candidates.go and the reads of pairs
--   Recommendation/Publisher      publisher.go and triggers.go
--   Recommendation/Worker         worker.go: handle and what it calls; Worker/Serve, processMessage and
--                                 Run, with a transport
--   Recommendation/Owners         EmployeeOwner and JobPositionOwner of repo.go
--   Recommendation/Service, Pagination   service.go with the ports of store.go, and pagination.go
--   Recommendation/Listings       JobRecommendationsForEmployee, EmployeeRecommendationsForJobPosition
--                                 and EmployerHasCurrentRecommendation of repo.go
--   Database/Listings             the statements that these three run
--   Database/JobPositions         internal/database/job_positions.sql.go, with the constraints of
--                                 sql/schema/0006_job_positions.sql
--   JobPosition/*                 internal/jobposition: models.go, repo.go, and service.go with events.go
--   Database/Employers            CreateEmployer of internal/database/employers.sql.go, with the trigger and
--                                 the constraints of sql/schema/0005_add_user_roles_and_employers.sql
--   Employer/*                    internal/employer: models.go, repo.go, service.go
--   Database/Employees, Files     internal/database/employees.sql.go, the statements that write, with the
--                                 constraints of sql/schema/0001_employees.sql and 0008
--   Employee/*                    internal/employee: authorization.go (Access), get_employee_profile.go
--                                 (Profile), download_url.go (Delivery), events.go (Events), the service's
--                                 CreateEmployee and UpdateEmployee of crud_employee.go
--                                 (Certifications, Files), parseCertificationsForm of certifications.go
--                                 (Form), and two reads of repo.go (Repo)
--   Employee/Writes, Stored       CreateEmployee and UpdateEmployee of repo.go, and its two reads of files
--   Employee/Steps                the other four steps, in crud_location.go, crud_tech.go,
--                                 crud_availability.go, crud_education.go and repo.go
--   Employee/Education            the documents of an education form, in crud_education.go
--   Files                         internal/files: GetPDF, with the files of a form that are open
--   Database/Users, Tokens        internal/database/users.sql.go and refresh_token.sql.go
--   User/*                        internal/user: repo.go, service.go and get_current_user.go
--   Auth                          internal/auth: MakeJWT, ValidateJWT and GenerateGrants
--   Tests                         concrete inputs for the theorems
--
-- State. A connection is the tables and a list of faults. Every statement takes the next entry of the
-- list: `some reason` is a statement that fails with that error and changes nothing, `none` one that
-- is run, and after the last entry every statement is run. A theorem for every connection is thus a
-- theorem for every pattern of failures. A failed statement inside a transaction gives back the tables
-- of its start, except the sequences of identifiers. A commit that fails is taken not
-- to have happened. Statements of other connections between the steps of one handler are not
-- modelled. Identifiers are integers, times are numbers of a clock, NULL and nil pointers are `none`.
-- All loops are structural recursion over lists, except Run, which goes on until its context is
-- cancelled: its first argument is the number of times the context is found not cancelled, and the
-- theorems hold for every such number.
--
-- Parameters: float64 is a type with a formatting function, JSON a pair of functions, strconv and
-- strings.TrimSpace functions, the order of NUMERIC and the catalogue of time zones Boolean tests, the
-- scorer and the transport records of operations, mime/multipart and net/http a record of the answers
-- for each file, password hashing and the signing of tokens functions.
--
-- Not modelled: HTTP handlers, the SQS client, the renewal of visibility (a goroutine that touches
-- neither the database nor the outcome), the reads that assemble a profile as JSON in SQL, the
-- uploads of CreateEducation and UpdateEducation of the service, and the packages of uploads and
-- of time zones.
pub mod Base
pub mod Errors
pub mod Files
pub mod Scoring
pub mod Recommendation
pub mod JobPosition
pub mod Employee
pub mod Employer
pub mod Auth
pub mod User
pub mod Database
pub mod Queue
pub mod Tests
